-- ===== src/Delivery/Callback/Completion.antt =====
-- A callback that is claimed can be reported as delivered.
use nod.Base.{
  Option, none, not, ◌&&◌, Option-cases, Distinct-eq, Distinct-update, Distinct-append, All-map,
  All-select_test, count_where-append, sym, ap, ℕ, ◌+◌, ◌≤◌, ◌<◌, ◌≡◌, refl, ◌∙◌, String, Bool,
  true, false, some, List, [], ◌∷◌, ◌==◌, any, update, count_where, ok, Memᴰ, Distinct, arith,
  eq_iff, eq_refl, Bool-cases, inl, inr, if◌then◌else◌, count_where-none, any-false_at, All-select,
  All-self, any-false_mono, ltb, leb,
}
use nod.Store.{CallbackRow}
use nod.Delivery.Callback.{
  lease_over, lease_live, is_delivered, CallbackClaim, claim_due, claim_row, claim_of, next_due,
  complete, holds_claim, leased, completed, is_due,
}
use nod.Delivery.Callback.Order.{
  same_delivery, same_delivery_sym, next_due-All, CallbackCall, claims, completes, retries, adds,
  IsNext, call, run,
}

abbrev is_row : CallbackRow → CallbackRow → Bool
is_row c r = r.delivery_id == c.delivery_id

count_where-is_row :
    (rows : List CallbackRow) (c : CallbackRow)
    → Distinct same_delivery rows
    → Memᴰ c rows
    → count_where (is_row c) rows ≡ 1
count_where-is_row [] c d m = elim m [ ]
count_where-is_row (r ∷ rs) c d (Memᴰ.head e) =
    let own : is_row c r ≡ true = rw e (eq_refl r.delivery_id) in
    let others : any (is_row c) rs ≡ false =
      any-false_mono (is_row c) (same_delivery r) rs
        (λ x h. rw ((eq_iff x.delivery_id c.delivery_id).0 h, e) (eq_refl r.delivery_id)) d.0 in
    rw (own, count_where-none (is_row c) rs others) refl
count_where-is_row (r ∷ rs) c d (Memᴰ.tail m) =
    let apart : same_delivery r c ≡ false = any-false_at (same_delivery r) rs d.0 m in
    rw apart (count_where-is_row rs c d.1 m)

count_where-moved :
    (q p : CallbackRow → Bool) (f : CallbackRow → CallbackRow) (rows : List CallbackRow)
    → ((r : CallbackRow) → q (if p r then f r else r) ≡ p r)
    → count_where q (update p f rows) ≡ count_where p rows
count_where-moved q p f [] k = refl
count_where-moved q p f (r ∷ rs) k = ground (arith, k r, count_where-moved q p f rs k)

holds_claim-leased :
    (now later : ℕ) (token : String) (c r : CallbackRow)
    → later < now + 30000
    → holds_claim later
        (claim_of token (leased now token c))
        (if is_row c r then leased now token r else r)
      ≡ is_row c r
holds_claim-leased now later token c r h = elim (Bool-cases (is_row c r)) [
  | inl e ↦ rw (e, e, eq_refl token) (ground (arith, h))
  | inr e ↦ rw (e, e) refl
]

-- What the other workers and the journal do until `later`: other lease tokens, and new callbacks.
abbrev pub IsForeign : ℕ → String → List CallbackRow → CallbackCall → Type 0
IsForeign later token rows (claims t other) = (t ≤ later) × ((other == token) ≡ false)
IsForeign later token rows (completes t claim status) = (claim.lease_token == token) ≡ false
IsForeign later token rows (retries t claim status blocked) = (claim.lease_token == token) ≡ false
IsForeign later token rows (adds row) = IsNext rows (adds row)

abbrev pub AllForeign : ℕ → String → List CallbackCall → List CallbackRow → Type 0
AllForeign later token [] rows = Unit
AllForeign later token (c ∷ cs) rows =
    IsForeign later token rows c × AllForeign later token cs (call c rows)

count_where-update_same :
    (q p : CallbackRow → Bool) (f : CallbackRow → CallbackRow) (rows : List CallbackRow)
    → ((r : CallbackRow) → Memᴰ r rows → p r ≡ true → q (f r) ≡ q r)
    → count_where q (update p f rows) ≡ count_where q rows
count_where-update_same q p f [] k = refl
count_where-update_same q p f (r ∷ rs) k =
    let rest = count_where-update_same q p f rs (λ x m. k x (Memᴰ.tail m)) in
    elim (Bool-cases (p r)) [
      | inl e ↦ rw (e, k r (Memᴰ.head refl) e, rest) refl
      | inr e ↦ rw (e, rest) refl
    ]

lease_over-lease_live :
    (t later : ℕ) (until : Option ℕ)
    → t ≤ later
    → lease_over t until ≡ true
    → lease_live later until ≡ false
lease_over-lease_live t later none le h = refl
lease_over-lease_live t later (some u) le h = ground (arith, le, h)

module _ (later : ℕ) (claim : CallbackClaim) where
  -- One row is the claim's, and the ids are distinct.
  abbrev IsHeld : List CallbackRow → Type 0
  IsHeld rows = Distinct same_delivery rows × (count_where (holds_claim later claim) rows ≡ 1)

  -- Only the claim's own reports reach its row.
  other_token :
      (t : ℕ) (other : CallbackClaim) (r : CallbackRow)
      → (other.lease_token == claim.lease_token) ≡ false
      → holds_claim t other r ≡ true
      → holds_claim later claim r ≡ false
  other_token t other r apart h = elim (Option-cases r.lease_token) [
    | inl n ↦ rw n (ground (arith, rw n at h))
    | inr (token, e) ↦
        let given : token ≡ other.lease_token =
          (eq_iff token other.lease_token).0 (ground (arith, rw e at h)) in
        rw (e, given) (ground (arith, apart))
  ]

  claim-IsHeld :
      (t : ℕ) (token : String) (rows : List CallbackRow) (o : Option CallbackRow)
      → t ≤ later
      → (token == claim.lease_token) ≡ false
      → next_due t rows ≡ o
      → IsHeld rows
      → IsHeld (claim_row t token rows o).1
  unfolding claim_row
  claim-IsHeld t token rows none le apart e h = h
  claim-IsHeld t token rows (some c) le apart e (d, one) = (
    Distinct-update same_delivery (is_row c) (leased t token) rows (λ a b. refl) (λ a b. refl) d,
    count_where-update_same (holds_claim later claim) (is_row c) (leased t token) rows (λ r m k.
          let same = Distinct-eq same_delivery rows same_delivery_sym d m here k in
          rw same (ground (arith, apart, lapsed)))
        ∙ one,
  )
    where
      here : Memᴰ c rows
      here =
          next_due-All (λ x. Memᴰ x rows) t rows (All-select _ (is_due t rows) rows (All-self rows))
            e

      lapsed : lease_live later c.lease_until ≡ false
      lapsed = lease_over-lease_live t later c.lease_until le (
          next_due-All (λ x. lease_over t x.lease_until ≡ true) t rows
            (All-map _ _ _ (λ x k. ground arith) (All-select_test (is_due t rows) rows)) e)

  report-IsHeld :
      (t : ℕ) (other : CallbackClaim) (f : CallbackRow → CallbackRow) (rows : List CallbackRow)
      → (other.lease_token == claim.lease_token) ≡ false
      → ((a : CallbackRow) → (f a).delivery_id ≡ a.delivery_id)
      → ((a : CallbackRow) → holds_claim later claim (f a) ≡ false)
      → IsHeld rows
      → IsHeld (update (holds_claim t other) f rows)
  report-IsHeld t other f rows apart same gone (d, one) = (
    Distinct-update same_delivery (holds_claim t other) f rows
        (λ a b. ap (λ x. x == b.delivery_id) (same a))
        (λ a b. ap (λ x. a.delivery_id == x) (same b)) d,
    count_where-update_same (holds_claim later claim) (holds_claim t other) f rows
          (λ r m h. gone r ∙ sym (other_token t other r apart h))
        ∙ one,
  )

  call-IsHeld :
      (c : CallbackCall) (rows : List CallbackRow)
      → IsForeign later claim.lease_token rows c
      → IsHeld rows
      → IsHeld (call c rows)
  unfolding call claim_due
  call-IsHeld (claims t token) rows (le, apart) h =
      claim-IsHeld t token rows (next_due t rows) le apart refl h
  call-IsHeld (completes t other status) rows apart h =
      elim (Bool-cases (not (leb 200 status && ltb status 300))) [
        | inl e ↦ rw e h
        | inr e ↦ rw e (
            report-IsHeld t other (completed t status) rows apart (λ a. refl) (λ a. ground arith) h)
      ]
  call-IsHeld (retries t other status blocked) rows apart h =
      report-IsHeld t other _ rows apart (λ a. refl) (λ a. ground arith) h
  call-IsHeld (adds row) rows (fresh, new, top) (d, one) = (
    Distinct-append same_delivery rows row same_delivery_sym d new,
    count_where-append (holds_claim later claim) rows (row ∷ []) ∙ ground (arith, one, fresh),
  )

  run-IsHeld :
      (cs : List CallbackCall) (rows : List CallbackRow)
      → AllForeign later claim.lease_token cs rows
      → IsHeld rows
      → IsHeld (run cs rows)
  unfolding run
  run-IsHeld [] rows n h = h
  run-IsHeld (c ∷ cs) rows (n, ns) h = run-IsHeld cs (call c rows) ns (call-IsHeld c rows n h)

any-update-true :
    (q p : CallbackRow → Bool) (f : CallbackRow → CallbackRow) (rows : List CallbackRow)
    → ((r : CallbackRow) → p r ≡ true → q (f r) ≡ true)
    → any p rows ≡ true
    → any q (update p f rows) ≡ true
any-update-true q p f [] k h = absurd (cc h)
any-update-true q p f (r ∷ rs) k h = elim (Bool-cases (p r)) [
  | inl e ↦ rw (e, k r e) refl
  | inr e ↦ rw e (ground (arith, any-update-true q p f rs k (rw e at h)))
]

any-one :
    (p : CallbackRow → Bool) (rows : List CallbackRow) → count_where p rows ≡ 1 → any p rows ≡ true
any-one p rows h = elim (Bool-cases (any p rows)) [
  | inl e ↦ e
  | inr e ↦ absurd (omega (arith, h, count_where-none p rows e))
]

-- The claim of a callback is good for thirty seconds. Let a callback be due and a worker claim it, and
-- let any calls follow: claims by any worker at times up to that of the report, completions and failures,
-- all with other lease tokens than the worker's, and new callbacks (each queued, under a new id and
-- with the request's highest revision). Then the worker's report of a success, less than thirty
-- seconds after its claim, finds the one row of the claim, is accepted, and the callback is
-- delivered, where the delivery ids were distinct.
pub claimed_callback_completes :
    (now later status : ℕ) (token : String) (rows : List CallbackRow) (c : CallbackRow)
    (between : List CallbackCall)
    → Distinct same_delivery rows
    → next_due now rows ≡ some c
    → later < now + 30000
    → 200 ≤ status
    → status < 300
    → AllForeign later token between (claim_due now token rows).1
    → (claim : CallbackClaim) × (rows' : List CallbackRow) × ((claim_due now token rows).0
        ≡ some claim)
      × (claim.delivery_id ≡ c.delivery_id)
      × (complete later claim status (run between (claim_due now token rows).1) ≡ ok (true, rows'))
      × (any (λ r. (r.delivery_id == c.delivery_id) && is_delivered r.state) rows' ≡ true)
unfolding claim_due claim_row complete
claimed_callback_completes now later status token rows c between d due soon low high foreign =
    let claim = claim_of token (leased now token c) in
    let m : Memᴰ c rows =
      next_due-All (λ x. Memᴰ x rows) now rows (All-select _ (is_due now rows) rows (All-self rows))
        due in
    let claimed = update (is_row c) (leased now token) rows in
    let one : count_where (holds_claim later claim) claimed ≡ 1 =
      count_where-moved (holds_claim later claim) (is_row c) (leased now token) rows
        (λ r. holds_claim-leased now later token c r soon)
      ∙ count_where-is_row rows c d m in
    let held = run-IsHeld later claim between claimed (rw due at foreign) (
      Distinct-update same_delivery (is_row c) (leased now token) rows (λ a b. refl) (λ a b. refl)
          d,
      one,
    ) in
    let ok_low : leb 200 status ≡ true = ground (arith, low) in
    let ok_high : ltb status 300 ≡ true = ground (arith, high) in
    (
      claim,
      update (holds_claim later claim) (completed later status) (run between claimed),
      rw due refl,
      refl,
      rw (due, ok_low, ok_high, held.1) refl,
      any-update-true (λ r. (r.delivery_id == c.delivery_id) && is_delivered r.state)
          (holds_claim later claim) (completed later status) (run between claimed)
          (λ r h. ground (arith, h))
          (any-one (holds_claim later claim) (run between claimed) held.1),
    )
