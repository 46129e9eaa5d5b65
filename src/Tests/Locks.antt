-- ===== src/Tests/Locks.antt =====
-- Three tasks of one node at concrete steps.
use chiyocore.Base.{ℕ, zero, suc, ◌<◌, ◌≡◌, ◌⊎◌, refl, arith, true, some}
use chiyocore.Locks.{
  IsLawful, contacts, writing, Role, receive, serve, retry, Task, layer_lock, ask, grant, update,
  starting, Reach, start, later, perform, clear, any, clashes, granted, role_asks, receive_asks,
  serve_asks,
}
use chiyocore.Locks.Progress.{CanAdvance, is_stuck, no_deadlock}

abbrev role : ℕ → Role
role zero = receive
role (suc zero) = serve
role _ = retry

abbrev node : ℕ → ℕ
node i = 0

abbrev first : ℕ → Task
first = starting role node

-- The command has the layers, and the received packet waits for them.
abbrev asking : Task
asking = record (first 1) { wants = some layer_lock }

abbrev serving : Task
serving = record (first 1) { layer = true }

abbrev waiting : Task
waiting = record (first 0) { wants = some layer_lock }

abbrev state : ℕ → Task
state = update (update (update first 1 asking) 1 serving) 0 waiting

-- Locks that are granted exactly when they are free.
locks-IsLawful : IsLawful clear
locks-IsLawful = record { exclusive = λ n s i w h. h; available = λ n s i w h. h }

state-Reach : Reach clear 3 role node state
unfolding perform clear any clashes granted role_asks receive_asks serve_asks
state-Reach =
    later 0 (ask layer_lock)
      (later 1 grant (later 1 (ask layer_lock) start (omega arith) refl) (omega arith) refl)
      (omega arith) refl

no_deadlock_example :
    ((j : ℕ) × (j < 3) × CanAdvance clear 3 state j)
    ⊎ ((j : ℕ) × (j < 3)
        × (is_stuck (state j) ≡ true)
        × ((state j).role ≡ serve)
        × ((state j).store ≡ some (contacts, writing))
        × ¬ CanAdvance clear 3 state j)
no_deadlock_example =
    no_deadlock clear locks-IsLawful 3 role node state 0 state-Reach (omega arith) refl
