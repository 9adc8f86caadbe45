-- ===== src/Notification/Hub/Subscriptions.antt =====
-- Whom internal/notification/hub.go broadcasts to.
use rush_delivery_engine.Prelude.{
  Bool, true, false, ◌&&◌, ◌||◌, ◌≡◌, ◌≢◌, refl, ap, ◌∙◌, ==_iff, Option, none, some, List, [], ◌∷◌,
  ◌==◌, arith, if◌then◌else◌, Bool-cases, inl, inr,
}
use rush_delivery_engine.Platform.{Uuid}
use rush_delivery_engine.Notification.Hub.{
  Conn, Hub, contains, insert, delete, set_of, put, register, unless_empty, without, unregister,
  recipients, Event, opened, closed, after,
}

-- Whether the connection is open for the order: the latest event of the two decides.
abbrev pub is_open : Uuid → Conn → List Event → Bool
is_open id c [] = false
is_open id c (opened i d ∷ earlier) = if id == i && d == c then true else is_open id c earlier
is_open id c (closed i d ∷ earlier) = if id == i && d == c then false else is_open id c earlier

contains_same :
    (c d : Conn) (set : List Conn) → contains d set ≡ true → (d == c) ≡ true → contains c set ≡ true
contains_same c d [] h same = absurd (ground arith)
contains_same c d (e ∷ set) h same = ground (arith, contains_same c d set)

contains-insert :
    (c d : Conn) (set : List Conn) → contains c (insert d set) ≡ (d == c) || contains c set
contains-insert c d set = elim (Bool-cases (contains d set)) [
  | inl there ↦ rw there (ground (arith, contains_same c d set there))
  | inr new ↦ rw new refl
]

contains-delete :
    (c d : Conn) (set : List Conn)
    → contains c (delete d set) ≡ (if d == c then false else contains c set)
contains-delete c d [] = ground arith
contains-delete c d (e ∷ set) = ground (arith, contains-delete c d set)

set_of-unless_empty : (set : List Conn) → set_of (unless_empty set) ≡ set
set_of-unless_empty [] = refl
set_of-unless_empty (c ∷ set) = refl

contains-without :
    (c d : Conn) (entry : Option (List Conn))
    → contains c (set_of (without d entry)) ≡ (if d == c then false else contains c (set_of entry))
unfolding without
contains-without c d none = ground arith
contains-without c d (some set) = rw (set_of-unless_empty (delete d set)) (contains-delete c d set)

register_at :
    (id i : Uuid) (c d : Conn) (hub : Hub)
    → contains c (set_of (register i d hub id))
      ≡ (if id == i && d == c then true else contains c (set_of (hub id)))
unfolding register
register_at id i c d hub = elim (Bool-cases (id == i)) [
  | inr other ↦ rw other refl
  | inl same ↦
      let e = (==_iff id i).0 same in
      rw (same, e) (contains-insert c d (set_of (hub i)) ∙ ground arith)
]

unregister_at :
    (id i : Uuid) (c d : Conn) (hub : Hub)
    → contains c (set_of (unregister i d hub id))
      ≡ (if id == i && d == c then false else contains c (set_of (hub id)))
unfolding unregister
unregister_at id i c d hub = elim (Bool-cases (id == i)) [
  | inr other ↦ rw other refl
  | inl same ↦
      let e = (==_iff id i).0 same in rw (same, e) (contains-without c d (hub i) ∙ ground arith)
]

-- After any connections opened and closed, in any order, `Broadcast` for an order reaches exactly the
-- connections whose latest event for the order is that they opened.
pub recipients-is_open :
    (id : Uuid) (c : Conn) (events : List Event)
    → contains c (recipients id (after events)) ≡ is_open id c events
unfolding recipients after
recipients-is_open id c [] = refl
recipients-is_open id c (opened i d ∷ earlier) =
    register_at id i c d (after earlier)
    ∙ ap (λ b. if id == i && d == c then true else b) (recipients-is_open id c earlier)
recipients-is_open id c (closed i d ∷ earlier) =
    unregister_at id i c d (after earlier)
    ∙ ap (λ b. if id == i && d == c then false else b) (recipients-is_open id c earlier)

-- No entry of the map is empty.
abbrev pub IsClean : Hub → Type 0
IsClean hub = (id : Uuid) → hub id ≢ some []

insert-ne-nil : (c : Conn) (set : List Conn) → some (insert c set) ≢ some []
insert-ne-nil c [] h = ground arith
insert-ne-nil c (d ∷ set) h = ground arith

unless_empty-ne-nil : (xs : List Conn) → unless_empty xs ≢ some []
unless_empty-ne-nil [] h = ground arith
unless_empty-ne-nil (c ∷ xs) h = ground arith

without-ne-nil : (c : Conn) (entry : Option (List Conn)) → without c entry ≢ some []
unfolding without
without-ne-nil c none h = ground arith
without-ne-nil c (some xs) h = unless_empty-ne-nil (delete c xs) h

put-IsClean :
    (i : Uuid) (entry : Option (List Conn)) (hub : Hub)
    → entry ≢ some []
    → IsClean hub
    → IsClean (put i entry hub)
put-IsClean i entry hub new old id h = elim (Bool-cases (id == i)) [
  | inl same ↦ new (rw same at h)
  | inr other ↦ old id (rw other at h)
]

-- However connections open and close, the map keeps no entry for an order without connections.
pub after-IsClean : (events : List Event) → IsClean (after events)
unfolding after register unregister
after-IsClean [] = λ id h. absurd (ground arith)
after-IsClean (opened i d ∷ earlier) =
    put-IsClean i (some (insert d (set_of (after earlier i)))) (after earlier)
      (insert-ne-nil d (set_of (after earlier i))) (after-IsClean earlier)
after-IsClean (closed i d ∷ earlier) =
    put-IsClean i (without d (after earlier i)) (after earlier) (without-ne-nil d (after earlier i))
      (after-IsClean earlier)
