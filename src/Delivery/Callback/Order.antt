-- ===== src/Delivery/Callback/Order.antt =====
-- The order and the finality of callback_deliveries.rs.
use nod.Base.{
  ℕ, ◌≡◌, refl, ap, ◌⊎◌, inl, inr, String, Bool, true, false, not, ◌&&◌, ◌||◌, Option, none, some,
  List, [], ◌∷◌, ◌++◌, ◌==◌, ltb, leb, any, select, update, sort_by, All, Result, ok, err, arith,
  Bool-cases, eq_iff, All-update-into, All-map, All-append, any-append, any-update-false,
  All-select_test, All-select, All-find, All-self, All-both, Distinct, Distinct-eq, Distinct-update,
  Distinct-append, Memᴰ, fun_ext, all, All-sort_by, if◌then◌else◌,
}
use nod.Store.{CallbackRow, CallbackState, queued}
use nod.Delivery.Callback.{
  CallbackClaim, claim_due, claim_row, next_due, complete, retry, holds_claim, holds_back, is_due,
  leased, completed, is_delivered, comes_first,
}

-- What happens to the table: the three statements, and a new callback of the journal.
pub data CallbackCall : Type 0 where
  claims : ℕ → (token : String) → CallbackCall
  completes : ℕ → CallbackClaim → (status : ℕ) → CallbackCall
  retries : ℕ → CallbackClaim → Option ℕ → Bool → CallbackCall
  adds : CallbackRow → CallbackCall

abbrev after {ℓ} :
    {A : Type ℓ} → List CallbackRow → Result (A × List CallbackRow) → List CallbackRow
after rows (ok p) = p.1
after rows (err e) = rows

unfoldable pub call : CallbackCall → List CallbackRow → List CallbackRow
unfolding claim_due complete retry
call (claims now token) rows = (claim_due now token rows).1
call (completes now claim status) rows = after rows (complete now claim status rows)
call (retries now claim status blocked) rows = (retry now claim status blocked rows).1
call (adds row) rows = rows ++ row ∷ []

unfoldable pub run : List CallbackCall → List CallbackRow → List CallbackRow
unfolding call
run [] rows = rows
run (c ∷ cs) rows = run cs (call c rows)

abbrev is_queued : CallbackState → Bool
is_queued queued = true
is_queued _ = false

-- Nothing older of the request is undelivered, unless no worker has taken `c` up yet.
abbrev InTurn : List CallbackRow → CallbackRow → Type 0
InTurn rows c = (is_queued c.state ≡ true) ⊎ (any (holds_back c) rows ≡ false)

abbrev pub same_delivery : CallbackRow → CallbackRow → Bool
same_delivery a b = a.delivery_id == b.delivery_id

pub same_delivery_sym : (a b : CallbackRow) → same_delivery a b ≡ true → same_delivery b a ≡ true
same_delivery_sym a b h =
    ground (arith, eq_iff a.delivery_id b.delivery_id, eq_iff b.delivery_id a.delivery_id)

-- The delivery ids are distinct, and every callback that a worker took up was in turn.
abbrev pub InOrder : List CallbackRow → Type 0
InOrder rows = Distinct same_delivery rows × All (InTurn rows) rows

-- The journal numbers the callbacks of a request upwards, gives them new ids and queues them.
abbrev pub is_newest : CallbackRow → CallbackRow → Bool
is_newest row r =
    not (r.request_id == row.request_id) || ltb r.request_revision row.request_revision

abbrev pub IsNext : List CallbackRow → CallbackCall → Type 0
IsNext rows (adds row) =
    (is_queued row.state ≡ true)
    × (any (same_delivery row) rows ≡ false)
    × (all (is_newest row) rows ≡ true)
IsNext rows _ = Unit

abbrev pub AllNext : List CallbackCall → List CallbackRow → Type 0
AllNext [] rows = Unit
AllNext (c ∷ cs) rows = IsNext rows c × AllNext cs (call c rows)

-- An update that keeps ids, requests and revisions, takes back no delivery, and touches a row only
-- if the row is in turn.
module _ (p : CallbackRow → Bool) (f : CallbackRow → CallbackRow) (rows : List CallbackRow)
    (back : (r c : CallbackRow)
      → Memᴰ r rows
      → p r ≡ true
      → holds_back c r ≡ false
      → holds_back c (f r) ≡ false)
    (front : (r c : CallbackRow) → holds_back (f c) r ≡ holds_back c r)
    (moved : (c : CallbackRow)
      → Memᴰ c rows
      → p c ≡ true
      → InTurn rows c
      → any (holds_back c) rows ≡ false) where
  update-InTurn :
      (c : CallbackRow)
      → InTurn rows c × Memᴰ c rows
      → InTurn (update p f rows) (if p c then f c else c)
  update-InTurn c (k, m) = elim (Bool-cases (p c)) [
    | inl e ↦ rw e (inr (rw (fun_ext (λ r. front r c)) (still (moved c m e k))))
    | inr e ↦ rw e (stay k)
  ]
    where
      still : any (holds_back c) rows ≡ false → any (holds_back c) (update p f rows) ≡ false
      still h = any-update-false (holds_back c) p f rows (λ r m. back r c m) h

      stay : InTurn rows c → InTurn (update p f rows) c
      stay (inl q) = inl q
      stay (inr h) = inr (still h)

  update-InOrder :
      ((a b : CallbackRow) → same_delivery (f a) b ≡ same_delivery a b)
      → ((a b : CallbackRow) → same_delivery a (f b) ≡ same_delivery a b)
      → InOrder rows
      → InOrder (update p f rows)
  update-InOrder l r (d, h) = (
    Distinct-update same_delivery p f rows l r d,
    All-update-into (λ c. InTurn rows c × Memᴰ c rows) _ p f rows update-InTurn
        (All-both _ _ rows h (All-self rows)),
  )

-- A row that a worker holds was in turn when it was taken up.
InTurn-of_claim :
    (now : ℕ) (claim : CallbackClaim) (rows : List CallbackRow) (c : CallbackRow)
    → holds_claim now claim c ≡ true
    → InTurn rows c
    → any (holds_back c) rows ≡ false
InTurn-of_claim now claim rows c h (inr k) = k
InTurn-of_claim now claim rows c h (inl q) = ground arith

pub next_due-All :
    (P : CallbackRow → Type 0) (now : ℕ) (rows : List CallbackRow) {c : CallbackRow}
    → All P (select (is_due now rows) rows)
    → next_due now rows ≡ some c
    → P c
unfolding next_due
next_due-All P now rows h e =
    All-find P (λ x. true) (sort_by comes_first (select (is_due now rows) rows))
      (All-sort_by P comes_first _ h) e

claim-InOrder :
    (now : ℕ) (token : String) (rows : List CallbackRow) (o : Option CallbackRow)
    → next_due now rows ≡ o
    → InOrder rows
    → InOrder (claim_row now token rows o).1
unfolding claim_row
claim-InOrder now token rows none e h = h
claim-InOrder now token rows (some c) e (d, h) =
    update-InOrder (λ r. r.delivery_id == c.delivery_id) (leased now token) rows
      (λ r x m k b. ground (
        arith,
        b,
        undelivered,
        ap (λ z. z.state) (Distinct-eq same_delivery rows same_delivery_sym d m here k),
      ))
      (λ r x. refl)
      (λ x m k t. rw (Distinct-eq same_delivery rows same_delivery_sym d m here k) turn)
      (λ a b. refl) (λ a b. refl) (d, h)
  where
    here : Memᴰ c rows
    here =
        next_due-All (λ x. Memᴰ x rows) now rows
          (All-select _ (is_due now rows) rows (All-self rows)) e

    undelivered : is_delivered c.state ≡ false
    undelivered =
        next_due-All (λ x. is_delivered x.state ≡ false) now rows
          (All-map _ _ _ (λ x k. ground arith) (All-select_test (is_due now rows) rows)) e

    turn : any (holds_back c) rows ≡ false
    turn =
        next_due-All (λ x. any (holds_back x) rows ≡ false) now rows
          (All-map _ _ _ (λ x k. ground arith) (All-select_test (is_due now rows) rows)) e

newest_holds_none :
    (row : CallbackRow) (rows : List CallbackRow) (c : CallbackRow)
    → Memᴰ c rows
    → all (is_newest row) rows ≡ true
    → holds_back c row ≡ false
newest_holds_none row [] c m h = elim m [ ]
newest_holds_none row (x ∷ xs) c (Memᴰ.head e) h =
    rw e (ground (arith, eq_iff row.request_id x.request_id, eq_iff x.request_id row.request_id))
newest_holds_none row (x ∷ xs) c (Memᴰ.tail m) h = newest_holds_none row xs c m (ground arith)

call-InOrder :
    (c : CallbackCall) (rows : List CallbackRow)
    → IsNext rows c
    → InOrder rows
    → InOrder (call c rows)
unfolding call
call-InOrder (claims now token) rows n h = claim-InOrder now token rows (next_due now rows) refl h
call-InOrder (completes now claim status) rows n h =
    elim (Bool-cases (not (leb 200 status && ltb status 300))) [
      | inl e ↦ rw e h
      | inr e ↦ rw e (
          update-InOrder (holds_claim now claim) (completed now status) rows
            (λ r x m k b. ground arith) (λ r x. refl)
            (λ x m k t. InTurn-of_claim now claim rows x k t) (λ a b. refl) (λ a b. refl) h)
    ]
call-InOrder (retries now claim status blocked) rows n h =
    update-InOrder (holds_claim now claim) _ rows (λ r x m k b. ground arith) (λ r x. refl)
      (λ x m k t. InTurn-of_claim now claim rows x k t) (λ a b. refl) (λ a b. refl) h
call-InOrder (adds row) rows (q, new, top) (d, h) = (
  Distinct-append same_delivery rows row same_delivery_sym d new,
  All-append (InTurn (rows ++ row ∷ [])) rows (row ∷ [])
      (All-map (λ c. InTurn rows c × Memᴰ c rows) _ rows
        (λ c k.
          ground (
            arith,
            any-append (holds_back c) rows (row ∷ []),
            newest_holds_none row rows c k.1 top,
          ))
        (All-both _ _ rows h (All-self rows)))
      (inl q, tt),
)

-- Callbacks reach an issuer in the order of a request's revisions: in every history of claims,
-- completions, refusals and new callbacks (each queued, under a new id and with the request's
-- highest revision), a callback that has been taken up, and so every delivered one, has no older
-- callback of its request undelivered; and the delivery ids stay distinct.
pub older_callbacks_come_first :
    (cs : List CallbackCall) (rows : List CallbackRow)
    → AllNext cs rows
    → InOrder rows
    → InOrder (run cs rows)
unfolding run
older_callbacks_come_first [] rows n h = h
older_callbacks_come_first (c ∷ cs) rows (n, ns) h =
    older_callbacks_come_first cs (call c rows) ns (call-InOrder c rows n h)
