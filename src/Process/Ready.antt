-- ===== src/Process/Ready.antt =====
-- tryToConnect: when the connection to the auth service counts as made.
use expire_share_api.Prelude.{true, List, [], ◌∷◌, ◌++◌, ◌≡◌, ◌↔◌, All, refl, ap, arith}
use expire_share_api.Process.{Connectivity, idle, connecting, ready, transient_failure, down}
use expire_share_api.Process.Connections.{try_to_connect}

-- A state after which the loop waits for the next tick.
abbrev pub Pending : Connectivity → Type 0
Pending idle = Unit
Pending connecting = Unit
Pending _ = ⊥

abbrev Seen : List Connectivity → Type 0
Seen xs =
    (before : List Connectivity) × (after : List Connectivity) × (xs ≡ before ++ ready ∷ after)
    × All Pending before

waited : (x : Connectivity) (xs : List Connectivity) → Pending x → Seen xs → Seen (x ∷ xs)
waited x xs h (before, after, e, p) = (x ∷ before, after, ap (λ l. x ∷ l) e, (h, p))

sound : (xs : List Connectivity) → try_to_connect xs ≡ true → Seen xs
unfolding try_to_connect
sound [] h = ground arith
sound (idle ∷ xs) h = waited idle xs tt (sound xs h)
sound (connecting ∷ xs) h = waited connecting xs tt (sound xs h)
sound (ready ∷ xs) h = ([], xs, refl, tt)
sound (transient_failure ∷ xs) h = ground arith
sound (down ∷ xs) h = ground arith

complete :
    (before after : List Connectivity)
    → All Pending before
    → try_to_connect (before ++ ready ∷ after) ≡ true
unfolding try_to_connect
complete [] after p = refl
complete (idle ∷ before) after p = complete before after p.1
complete (connecting ∷ before) after p = complete before after p.1
complete (ready ∷ before) after p = refl
complete (transient_failure ∷ before) after p = elim p.0 [ ]
complete (down ∷ before) after p = elim p.0 [ ]

-- tryToConnect reports a connection exactly where one of the ticks finds it ready and every tick
-- before finds it idle or connecting: a first failed attempt ends the wait, and so does the context.
pub try_to_connect_iff :
    (xs : List Connectivity)
    → (try_to_connect xs ≡ true) ↔ (
        (before : List Connectivity) × (after : List Connectivity) × (xs ≡ before ++ ready ∷ after)
        × All Pending before)
try_to_connect_iff xs = (sound xs, λ (before, after, e, p). rw e (complete before after p))
