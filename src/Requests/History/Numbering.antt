-- ===== src/Requests/History/Numbering.antt =====
-- The numbering of the journal's entries.
use nod.Base.{
  append_nil, ◌||◌, find_sound, find-some-any, false≢true, ℕ, suc, zero, ◌+◌, ◌≡◌, refl, ap, sym,
  ◌∙◌, String, Bool, true, false, List, [], ◌∷◌, ◌++◌, ◌==◌, any, update, map, if◌then◌else◌, All,
  All-append, All-update-into, All-map, All-find, arith, eq_iff, eq_refl, any-append, select-append,
  Bool-cases, inl, inr, length, length-append, any-false_mono,
}
use nod.Store.{RequestRow, EventRow}
use nod.Requests.History.{
  Journal, Edit, insert, touch, log, Edits, done, step, same_id, same_pending_key, one_to,
  revisions_of,
}

-- A request's journal entries are numbered 1, 2, … up to its revision, and every entry has a request.
abbrev pub IsNumbered : Journal → Type 0
IsNumbered j =
    All (λ r. revisions_of r.id j.events ≡ one_to r.revision) j.requests
    × All (λ e. any (λ r. r.id == e.request_id) j.requests ≡ true) j.events

length-one_to : (n : ℕ) → length (one_to n) ≡ n
length-one_to zero = refl
length-one_to (suc n) = omega (arith, length-append (one_to n) (suc n ∷ []), length-one_to n)

one_to_next : (n : ℕ) → one_to (n + 1) ≡ one_to n ++ (n + 1) ∷ []
one_to_next n = let e : n + 1 ≡ suc n = omega arith in rw e refl

one_to-injective : (m n : ℕ) → one_to m ≡ one_to n → m ≡ n
one_to-injective m n h = sym (length-one_to m) ∙ ap length h ∙ length-one_to n

map-append {ℓ κ} :
    {A : Type ℓ} {B : Type κ} (f : A → B) (xs ys : List A) → map f (xs ++ ys) ≡ map f xs ++ map f ys
map-append f [] ys = refl
map-append f (x ∷ xs) ys = ap (λ zs. f x ∷ zs) (map-append f xs ys)

revisions_of-append :
    (id : String) (es fs : List EventRow)
    → revisions_of id (es ++ fs) ≡ revisions_of id es ++ revisions_of id fs
revisions_of-append id es fs =
    ap (map (λ e. e.revision)) (select-append (λ e. e.request_id == id) es fs)
    ∙ map-append (λ e. e.revision) _ _

-- A request without a row has no entries.
revisions_of-none :
    (id : String) (rows : List RequestRow) (es : List EventRow)
    → any (λ r. r.id == id) rows ≡ false
    → All (λ e. any (λ r. r.id == e.request_id) rows ≡ true) es
    → revisions_of id es ≡ []
revisions_of-none id rows [] h k = refl
revisions_of-none id rows (e ∷ es) h k = elim (Bool-cases (e.request_id == id)) [
  | inl q ↦ absurd (
      false≢true
        (sym h ∙ ap (λ z. any (λ r. r.id == z) rows) (sym ((eq_iff e.request_id id).0 q)) ∙ k.0))
  | inr q ↦ rw q (revisions_of-none id rows es h k.1)
]

any-update_same {ℓ} :
    {A : Type ℓ} (q p : A → Bool) (f : A → A) (xs : List A)
    → ((x : A) → q (if p x then f x else x) ≡ q x)
    → any q (update p f xs) ≡ any q xs
any-update_same q p f [] k = refl
any-update_same q p f (x ∷ xs) k = ground (arith, k x, any-update_same q p f xs k)

update-IsNumbered :
    (p : RequestRow → Bool) (f : RequestRow → RequestRow) (rows : List RequestRow)
    (es : List EventRow)
    → ((r : RequestRow) → (if p r then f r else r).id ≡ r.id)
    → All (λ e. any (λ r. r.id == e.request_id) rows ≡ true) es
    → All (λ e. any (λ r. r.id == e.request_id) (update p f rows) ≡ true) es
update-IsNumbered p f rows es k =
    All-map _ _ es (λ e h. any-update_same _ p f rows (λ r. ap (λ i. i == e.request_id) (k r)) ∙ h)

bump-id :
    (id : String) (r : RequestRow)
    → (if r.id == id then record r { revision = r.revision + 1 } else r).id ≡ r.id
bump-id id r = ground arith

bump-numbered :
    (id : String) (row : RequestRow) (e : EventRow) (es : List EventRow)
    → e.request_id ≡ id
    → e.revision ≡ row.revision + 1
    → revisions_of id es ≡ one_to row.revision
    → (r : RequestRow) → revisions_of r.id es ≡ one_to r.revision
    → (λ (x : RequestRow). revisions_of x.id (es ++ e ∷ []) ≡ one_to x.revision)
        (if r.id == id then record r { revision = r.revision + 1 } else r)
bump-numbered id row e es same next k r h = elim (Bool-cases (r.id == id)) [
  | inl q ↦
      let i : r.id ≡ id = (eq_iff r.id id).0 q in
      let n : r.revision ≡ row.revision =
        one_to-injective _ _ (sym h ∙ ap (λ z. revisions_of z es) i ∙ k) in
      let t : (e.request_id == r.id) ≡ true = rw (same, i, eq_refl id) in
      rw q
        (revisions_of-append r.id es (e ∷ []) ∙ rw (t, h, next, n) (sym (one_to_next row.revision)))
  | inr q ↦
      let t : (e.request_id == r.id) ≡ false = ground (arith, eq_iff e.request_id r.id) in
      rw q (revisions_of-append r.id es (e ∷ []) ∙ rw (t, h) (append_nil (one_to r.revision)))
]

Edit-IsNumbered : {i j : Journal} → Edit i j → IsNumbered i → IsNumbered j
Edit-IsNumbered (insert j r new free) (n, k) =
    let absent : any (λ x. x.id == r.id) j.requests ≡ false =
      any-false_mono _ (λ x. same_id r x || same_pending_key r x) j.requests
        (λ x h. ground (arith, eq_iff x.id r.id, eq_iff r.id x.id)) free in
    (
      All-append _ j.requests (r ∷ []) n
          (rw new (revisions_of-none r.id j.requests j.events absent k), tt),
      All-map _ _ j.events (λ e h. any-append _ j.requests (r ∷ []) ∙ (ground (arith, h))) k,
    )
Edit-IsNumbered (touch j p f t) (n, k) = (
  All-update-into _ _ p f j.requests (λ r h. rw ((t r).keeps.id, (t r).revision) h) n,
  update-IsNumbered p f j.requests j.events (λ r. (t r).keeps.id) k,
)
Edit-IsNumbered (log j id row e found same next) (n, k) = (
  All-update-into _ _ (λ r. r.id == id) _ j.requests
      (bump-numbered id row e j.events same next (
        rw (← (eq_iff row.id id).0 (find_sound (λ r. r.id == id) j.requests found))
          (All-find _ (λ r. r.id == id) j.requests n found)))
      n,
  All-append _ j.events (e ∷ [])
      (update-IsNumbered (λ x. x.id == id) (λ x. record x { revision = x.revision + 1 }) j.requests
        j.events (bump-id id) k)
      (
        any-update_same _ (λ r. r.id == id) _ j.requests
              (λ r. ap (λ i. i == e.request_id) (bump-id id r))
            ∙ rw same (find-some-any (λ r. r.id == id) j.requests found),
        tt,
      ),
)

pub Edits-IsNumbered : {i j : Journal} → Edits i j → IsNumbered i → IsNumbered j
Edits-IsNumbered done u = u
Edits-IsNumbered (step s d) u = Edits-IsNumbered d (Edit-IsNumbered s u)
