-- ===== src/Gateway/Pipe/Replay.antt =====
-- The message ids that a pipe of gateway/pipe/pipe.go remembers.
use maeve_csms_reservations.Prelude.{
  ℕ, zero, suc, replicate, ◌≡◌, refl, sym, ◌∙◌, ap, String, Bool, false, ◌||◌, Option, none, some,
  List, [], ◌∷◌, ◌++◌, arith, any, All, ◌==◌, eq_iff, Bool-cases, inl, inr, if◌then◌else◌,
}
use mathlib.Core.List.{append-nil}
use maeve_csms_reservations.Gateway.Message.{is_call}
use maeve_csms_reservations.Gateway.Ring
use maeve_csms_reservations.Gateway.Ring.{Ring, put_next, rotate, present, remembered}
use maeve_csms_reservations.Gateway.Pipe.Invariant.{IsSound, Run-IsSound, new_pipe-IsSound}
use maeve_csms_reservations.Gateway.Pipe.Delivery.{Justified, turn-Justified}
use maeve_csms_reservations.Gateway.Pipe.{
  start, apply_opts, ensure_defaults, Opt, new_pipe, Run, here, next, Step, loop,
  charge_station_sends, csms_sends, csms_hands_over, close, Pipe, Case, on_charge_station_rx,
  on_csms_rx, goes_on, turn, Sent, find_message_id, find_id, charge_station_tx, csms_tx,
}

-- No id stands twice.
abbrev pub Unique : List String → Type 0
Unique [] = Unit
Unique (x ∷ xs) = (any (λ y. y == x) xs ≡ false) × Unique xs

abbrev cons_present : Option String → List String → List String
cons_present none l = l
cons_present (some v) l = v ∷ l

or_false : (a b c : Bool) → (a || c) ≡ false → b ≡ false → (a || b) ≡ false
or_false a b c h k = ground arith

any-tail :
    (p : String → Bool) (v : String) (l : List String) → any p (v ∷ l) ≡ false → any p l ≡ false
any-tail p v l h = ground arith

find_id-present :
    (id : String) (l : List (Option String)) → find_id id l ≡ any (λ y. y == id) (present l)
find_id-present id [] = refl
find_id-present id (none ∷ l) = find_id-present id l
find_id-present id (some x ∷ l) = ground (arith, find_id-present id l)

find_message_id-remembered :
    (r : Ring String) (id : String) → find_message_id r id ≡ any (λ y. y == id) (remembered r)
unfolding find_message_id
find_message_id-remembered r id = find_id-present id (r.value ∷ r.others)

present-append : (l k : List (Option String)) → present (l ++ k) ≡ present l ++ present k
present-append [] k = refl
present-append (none ∷ l) k = present-append l k
present-append (some x ∷ l) k = ap (◌∷◌ x) (present-append l k)

any-append : (p : String → Bool) (l k : List String) → any p (l ++ k) ≡ (any p l || any p k)
any-append p [] k = refl
any-append p (x ∷ l) k = ground (arith, any-append p l k)

any-snoc :
    (p : String → Bool) (l : List String) (x : String) → any p (l ++ (x ∷ [])) ≡ (p x || any p l)
any-snoc p l x = any-append p l (x ∷ []) ∙ ground arith

Unique-snoc :
    (l : List String) (x : String) → Unique l → any (λ y. y == x) l ≡ false → Unique (l ++ (x ∷ []))
Unique-snoc [] x h k = (refl, tt)
Unique-snoc (y ∷ l) x h k = (
  any-snoc (λ z. z == y) l x ∙ ground (arith, eq_iff x y, eq_iff y x),
  Unique-snoc l x h.1 (ground arith),
)

Unique-drop : (x : Option String) (l : List String) → Unique (cons_present x l) → Unique l
Unique-drop none l h = h
Unique-drop (some v) l h = h.1

any-drop :
    (p : String → Bool) (x : Option String) (l : List String)
    → any p (cons_present x l) ≡ false
    → any p l ≡ false
any-drop p none l h = h
any-drop p (some v) l h = ground arith

present-cons :
    (x : Option String) (l : List (Option String)) → present (x ∷ l) ≡ cons_present x (present l)
present-cons none l = refl
present-cons (some v) l = refl

-- What a move of the ring forgets is the oldest id, if the ring is full.
any-rotate :
    (p : String → Bool) (l : List (Option String)) (last : Option String)
    → any p (present (last ∷ l)) ≡ false
    → any p (present (rotate l last)) ≡ false
unfolding rotate
any-rotate p [] last h = refl
any-rotate p (x ∷ l) none h =
    rw (present-append l (none ∷ []), append-nil) (any-drop p x _ (rw (present-cons x l) at h))
any-rotate p (x ∷ l) (some v) h =
    rw (present-append l (some v ∷ []), any-snoc p (present l) v)
      (or_false (p v) _ _ h (any-drop p x _ (rw (present-cons x l) at (any-tail p v _ h))))

Unique-rotate :
    (l : List (Option String)) (last : Option String)
    → Unique (present (last ∷ l))
    → Unique (present (rotate l last))
unfolding rotate
Unique-rotate [] last h = tt
Unique-rotate (x ∷ l) none h =
    rw (present-append l (none ∷ []), append-nil) (Unique-drop x _ (rw (present-cons x l) at h))
Unique-rotate (x ∷ l) (some v) h = rw (present-append l (some v ∷ [])) (
    Unique-snoc (present l) v (Unique-drop x _ (rw (present-cons x l) at h.1))
      (any-drop (λ y. y == v) x _ (rw (present-cons x l) at h.0)))

Unique-put_next :
    (id : String) (r : Ring String)
    → Unique (remembered r)
    → find_message_id r id ≡ false
    → Unique (remembered (put_next id r))
unfolding put_next
Unique-put_next id r h fresh = (
  any-rotate (λ y. y == id) r.others r.value (sym (find_message_id-remembered r id) ∙ fresh),
  Unique-rotate r.others r.value h,
)

-- The ring of ids after a turn, from what the turn has sent.
abbrev pub ids_after : List Sent → Ring String → Ring String
ids_after [] r = r
ids_after (charge_station_tx msg ∷ _) r = r
ids_after (csms_tx msg ∷ _) r = if is_call msg.message_type then put_next msg.message_id r else r

turn-ids_after :
    (c : Case) (p : Pipe) {q : Pipe} {sent : List Sent}
    → turn c p ≡ goes_on q sent
    → q.processed_message_ids ≡ ids_after sent p.processed_message_ids
unfolding turn
turn-ids_after on_charge_station_rx p e = ground arith
turn-ids_after _ p e = ground arith

Unique-ids_after :
    (p : Pipe) (sent : List Sent)
    → All (Justified p) sent
    → Unique (remembered p.processed_message_ids)
    → Unique (remembered (ids_after sent p.processed_message_ids))
Unique-ids_after p [] j h = h
Unique-ids_after p (charge_station_tx msg ∷ _) j h = h
Unique-ids_after p (csms_tx msg ∷ _) j h = elim (Bool-cases (is_call msg.message_type)) [
  | inl call ↦ rw call (Unique-put_next msg.message_id p.processed_message_ids h (rw call at j.0))
  | inr response ↦ rw response h
]

Step-Unique :
    {p q : Pipe} {sent : List Sent}
    → Step p sent q
    → IsSound p
    → Unique (remembered p.processed_message_ids)
    → Unique (remembered q.processed_message_ids)
Step-Unique {p} {sent} (loop c e) s h =
    rw (turn-ids_after c p e) (Unique-ids_after p sent (turn-Justified c p s e) h)
Step-Unique (charge_station_sends msg room) s h = h
Step-Unique (csms_sends msg room) s h = h
Step-Unique {p} {sent} (csms_hands_over msg none_held e) s h =
    rw (turn-ids_after on_csms_rx (record p { csms_rx = msg ∷ [] }) e) (
      Unique-ids_after p sent
        (turn-Justified on_csms_rx (record p { csms_rx = msg ∷ [] }) (ground arith) e) h)
Step-Unique close s h = h

Run-Unique :
    {p q : Pipe} {sent : List Sent}
    → Run p sent q
    → IsSound p
    → Unique (remembered p.processed_message_ids)
    → Unique (remembered q.processed_message_ids)
Run-Unique here s h = h
Run-Unique (next run step) s h = Step-Unique step (Run-IsSound run s) (Run-Unique run s h)

present-replicate : (n : ℕ) → present (replicate {A = Option String} n none) ≡ []
present-replicate zero = refl
present-replicate (suc n) = present-replicate n

new-remembered : (n : ℕ) → remembered (Ring.new {A = String} n) ≡ []
unfolding Ring.new
new-remembered zero = refl
new-remembered (suc n) = present-replicate n

new_pipe-fresh : (opts : List Opt) → Unique (remembered (new_pipe opts).processed_message_ids)
unfolding new_pipe start
new_pipe-fresh opts = rw (new-remembered (apply_opts opts ensure_defaults).message_id_buffer_len) tt

-- However a new pipe is used, no message id is remembered twice.
pub new_pipe-Unique :
    (opts : List Opt) {q : Pipe} {sent : List Sent}
    → Run (new_pipe opts) sent q
    → Unique (remembered q.processed_message_ids)
new_pipe-Unique opts run = Run-Unique run (new_pipe-IsSound opts) (new_pipe-fresh opts)
