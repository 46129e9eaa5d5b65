-- ===== src/Lora.antt =====
-- The LoRa task of firmware/chiyocore/src/lora.rs: the search for a free channel, the transmission, and the
-- loop of `Radio::run` round by round. The driver, the crate lora_phy, is an interface with a state of
-- its own. A full receive channel, for which the loop waits, is not modelled.
pub mod Backoff
pub mod Air
pub mod Rounds
pub mod Channel
use Prim.Native.Nat.{min}
use chiyocore.Base.{
  ℕ, zero, suc, ◌+◌, ◌-◌, ◌*◌, ◌^◌, ◌≤◌, ◌<◌, ◌≡◌, Bool, true, false, Option, none, some, List, [],
  ◌∷◌, ◌++◌, ltb, if◌then◌else◌,
}
use chiyocore.Base.Bytes.{Bytes}
use chiyocore.Hal.Outcome.{Outcome, ok, err, panicked, blocked, lora, Action, pure, panic}

-- `IrqState`, and the answer of `process_irq_event`.
pub data Irq : Type 0 where
  preamble_received done nothing : Irq

-- Packets as bytes, with their status.
pub record Received : Type 0 where
  pub bytes : Bytes
  pub rssi : ℕ
  pub snr : ℕ

-- `LoRa` with the parameters of the radio: `none` and `false` are a `RadioError`. `random_range` is
-- that of the hardware's generator, in a range.
pub record Driver (D : Type 0) : Type 0 where
  pub prepare_for_cad : D → Bool × D
  pub cad : D → Option Bool × D
  pub prepare_for_tx : Bytes → D → Bool × D
  pub tx : D → Bool × D
  pub prepare_for_rx : D → Bool × D
  pub start_rx : D → Bool × D
  pub process_irq_event : D → Option Irq × D
  pub get_rx_result : D → Option Received × D
  pub clear_irq_status : D → Bool × D
  pub random_range : ℕ → ℕ → D → ℕ × D

-- The radio beside its two channels, oldest first, and the milliseconds that it waited, latest last.
pub record Radio (D : Type 0) : Type 0 where
  pub driver : D
  pub to_send : List Bytes
  pub received : List Received
  pub waits : List ℕ
  pub needs_rx_restart : Bool

abbrev pub of_bool : Bool → Outcome (Unit {0})
of_bool true = ok tt
of_bool false = err lora

abbrev pub of_option : {A : Type 0} → Option A → Outcome A
of_option none = err lora
of_option (some a) = ok a

module _ {S : Type 0} where
  infixl 5 ◌>>=◌ ◌>>◌
  unfoldable pub ◌>>=◌ : {A B : Type 0} → Action S A → (A → Action S B) → Action S B
  ◌>>=◌ m f s =
      let (r, s') = m s in
      elim r [
        | ok a ↦ f a s'
        | err e ↦ (err e, s')
        | panicked ↦ (panicked, s')
        | blocked ↦ (blocked, s')
      ]

  abbrev pub ◌>>◌ : {B : Type 0} → Action S (Unit {0}) → Action S B → Action S B
  m >> k = m >>= λ _. k

module _ {D : Type 0} where
  -- A call of the driver, with `?`.
  abbrev pub drive : (D → Bool × D) → Action (Radio D) (Unit {0})
  drive f w = let (r, d) = f w.driver in (of_bool r, record w { driver = d })

  abbrev pub ask : {A : Type 0} → (D → Option A × D) → Action (Radio D) A
  ask f w = let (r, d) = f w.driver in (of_option r, record w { driver = d })

  abbrev pub draw : (D → ℕ × D) → Action (Radio D) ℕ
  draw f w = let (r, d) = f w.driver in (ok r, record w { driver = d })

  -- `Timer::after_millis`.
  abbrev pub after_millis : ℕ → Action (Radio D) (Unit {0})
  after_millis ms w = (ok tt, record w { waits = w.waits ++ ms ∷ [] })

  abbrev pub set_restart : Bool → Action (Radio D) (Unit {0})
  set_restart b w = (ok tt, record w { needs_rx_restart = b })

  abbrev pub push_received : Received → Action (Radio D) (Unit {0})
  push_received r w = (ok tt, record w { received = w.received ++ r ∷ [] })

-- What a round of the loop meets: the packets that have come to the channel since the last round, those
-- that come in it, and whether one of them, and not an interrupt or the timeout, ends the `select`.
pub record Input : Type 0 where
  pub arrived : List Bytes
  pub late : List Bytes
  pub woken : Bool

-- `backoff_ms.min(5000)`, after `tries` has been counted up.
unfoldable pub backoff : ℕ → ℕ → ℕ
backoff jitter tries = min (jitter * (tries - 1) ^ 2) 5000

module _ {D : Type 0} (d : Driver D) where
  -- The wait after a busy channel, and the rest of the loop.
  unfoldable pub back_off : ℕ → Action (Radio D) (Unit {0}) → Bool → Action (Radio D) (Unit {0})
  back_off tries rest false = pure tt
  back_off tries rest true =
      draw (d.random_range 50 200) >>= λ jitter. after_millis (backoff jitter tries) >> rest

  -- The `while` of `cad_check` from a number of tries, on fuel; a panic when it runs out.
  unfoldable pub cad_loop : (fuel : ℕ) → ℕ → Action (Radio D) (Unit {0})
  unfolding back_off
  cad_loop zero tries = panic
  cad_loop (suc fuel) tries =
      let rest = cad_loop fuel (suc tries) in
      if ltb tries 5
      then drive d.prepare_for_cad >> (ask d.cad >>= back_off (suc tries) rest)
      else pure tt

  unfoldable pub cad_check : Action (Radio D) (Unit {0})
  cad_check = cad_loop 6 0

  unfoldable pub tx : Bytes → Action (Radio D) (Unit {0})
  tx data_ = cad_check >> (drive (d.prepare_for_tx data_) >> drive d.tx)

  unfoldable pub restart_rx : Action (Radio D) (Unit {0})
  restart_rx = drive d.prepare_for_rx >> drive d.start_rx

  -- The `match` on the interrupt.
  unfoldable pub handle_irq : Irq → Action (Radio D) (Unit {0})
  handle_irq preamble_received = set_restart false
  handle_irq nothing = set_restart false
  handle_irq done =
      ask d.get_rx_result >>= λ r. push_received r >> (drive d.clear_irq_status >> set_restart true)

  -- The `if needs_rx_restart`.
  unfoldable pub restart_if_needed : Action (Radio D) (Unit {0})
  restart_if_needed w = (if w.needs_rx_restart then restart_rx else pure tt) w

  -- The `select` at the end of a round: packets come to the channel while it waits, and unless an interrupt
  -- or the timeout is first, the oldest is sent.
  unfoldable pub wait_for : List Bytes → Bool → Action (Radio D) (Unit {0})
  wait_for [] woken w = (ok tt, w)
  wait_for (body ∷ rest) true w = (tx body >> set_restart true) (record w { to_send = rest })
  wait_for (body ∷ rest) false w = (ok tt, record w { to_send = body ∷ rest })

  unfoldable pub listen : List Bytes → Bool → Action (Radio D) (Unit {0})
  listen late woken =
      restart_if_needed >> ((ask d.process_irq_event >>= handle_irq) >> wait_for late woken)

  -- A round on the channel's packets, those that come to it in the round, and what ends the `select`.
  unfoldable pub round : List Bytes → List Bytes → Bool → Action (Radio D) (Unit {0})
  round [] late woken w = listen late woken (record w { to_send = [] })
  round (body ∷ rest) late woken w =
      (tx body >> set_restart true) (record w { to_send = rest ++ late })

  -- The rounds of `run`, up to an error.
  unfoldable pub rounds : List Input → Action (Radio D) (Unit {0})
  rounds [] = pure tt
  rounds (i ∷ rest) = (λ w. round (w.to_send ++ i.arrived) i.late i.woken w) >> rounds rest

  unfoldable pub run : List Input → Action (Radio D) (Unit {0})
  run inputs = restart_rx >> (set_restart false >> rounds inputs)
