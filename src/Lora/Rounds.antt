-- ===== src/Lora/Rounds.antt =====
-- The rounds of `Radio::run`: what is on the air, and when the radio listens.
use mathlib.Core.List.{append_assoc, append-nil}
use chiyocore.Base.{
  ◌≡◌, ◌∙◌, ◌⊎◌, refl, sym, ap, subst, arith, Bool, true, false, List, [], ◌∷◌, ◌++◌, inl, inr,
  if◌then◌else◌,
}
use chiyocore.Base.Bytes.{Bytes}
use chiyocore.Hal.Outcome.{pure}
use chiyocore.Lora.{
  Driver, Radio, Irq, Input, tx, restart_rx, handle_irq, restart_if_needed, wait_for, listen, round,
  rounds, run, set_restart, push_received, ◌>>◌,
}
use chiyocore.Lora.Backoff.{Ends, Ends->>=}
use chiyocore.Lora.Air.{IsLawful, At, Any, drive-Ends, ask-Ends, tx-At}

assoc_left : (a b c e : List Bytes) → a ++ (b ++ c ++ e) ≡ a ++ b ++ c ++ e
assoc_left a b c e = sym (append_assoc a (b ++ c) e) ∙ ap (λ l. l ++ e) (sym (append_assoc a b c))

-- All the packets that rounds are given.
abbrev pub given : List Input → List Bytes
given [] = []
given (i ∷ rest) = i.arrived ++ i.late ++ given rest

module _ {D : Type 0} (d : Driver D) (lawful : IsLawful d) where
  -- The radio listens, or will before it is asked.
  abbrev pub Heard : Radio D → Type 0
  Heard w = (w.needs_rx_restart ≡ true) ⊎ (lawful.listening w.driver ≡ true)

  -- These packets were accepted, in this order.
  abbrev pub Accepted : List Bytes → Radio D → Type 0
  Accepted f w = (lawful.aired w.driver ++ w.to_send ≡ f) × Heard w

  transmit-Accepted :
      (a q : List Bytes) (body : Bytes) (w : Radio D)
      → At d lawful a q w
      → Ends
          (λ _. Accepted ((a ++ body ∷ []) ++ q))
          (Any d lawful)
          ((tx d body >> set_restart true) w)
  transmit-Accepted a q body w at =
      Ends->>= (λ _. At d lawful (a ++ body ∷ []) q) (λ _. Accepted ((a ++ body ∷ []) ++ q))
        (Any d lawful) _ _ w (tx-At d lawful a q body w at)
        λ _ w1 (on_air, left). (rw (on_air, left) refl, inl refl)

  restart_rx-At :
      (a q : List Bytes) (w : Radio D)
      → At d lawful a q w
      → Ends
          (λ _ w'. At d lawful a q w' × (lawful.listening w'.driver ≡ true))
          (Any d lawful)
          (restart_rx d w)
  unfolding restart_rx
  restart_rx-At a q w at =
      Ends->>= (λ _. At d lawful a q)
        (λ _ w'. At d lawful a q w' × (lawful.listening w'.driver ≡ true)) (Any d lawful) _ _ w
        (drive-Ends d lawful (At d lawful a q) d.prepare_for_rx w
          λ _. (lawful.aired-prepare_for_rx w.driver ∙ at.0, at.1))
        λ _ w1 at1.
          drive-Ends d lawful (λ w'. At d lawful a q w' × (lawful.listening w'.driver ≡ true))
            d.start_rx w1
            λ good. (
              (lawful.aired-start_rx w1.driver ∙ at1.0, at1.1),
              lawful.listening-start_rx w1.driver good,
            )

  restart_if_needed-At :
      (a q : List Bytes) (w : Radio D)
      → At d lawful a q w
      → Heard w
      → Ends
          (λ _ w'. At d lawful a q w' × (lawful.listening w'.driver ≡ true))
          (Any d lawful)
          (restart_if_needed d w)
  unfolding restart_if_needed
  restart_if_needed-At a q w at heard = go w.needs_rx_restart heard
    where
      go :
          (b : Bool)
          → (b ≡ true) ⊎ (lawful.listening w.driver ≡ true)
          → Ends
              (λ _ w'. At d lawful a q w' × (lawful.listening w'.driver ≡ true))
              (Any d lawful)
              ((if b then restart_rx d else pure tt) w)
      go true heard = restart_rx-At a q w at
      go false (inl needed) = absurd (ground arith)
      go false (inr listening) = (at, listening)

  handle_irq-At :
      (a q : List Bytes) (irq : Irq) (w : Radio D)
      → At d lawful a q w
      → lawful.listening w.driver ≡ true
      → Ends (λ _ w'. At d lawful a q w' × Heard w') (Any d lawful) (handle_irq d irq w)
  unfolding handle_irq
  handle_irq-At a q Irq.preamble_received w at listening = (at, inr listening)
  handle_irq-At a q Irq.nothing w at listening = (at, inr listening)
  handle_irq-At a q Irq.done w at listening =
      Ends->>= (λ _. At d lawful a q) (λ _ w'. At d lawful a q w' × Heard w') (Any d lawful) _ _ w
        (ask-Ends d lawful (At d lawful a q) d.get_rx_result w
          (lawful.aired-get_rx_result w.driver ∙ at.0, at.1))
        λ r w1 at1.
          Ends->>= (λ _. At d lawful a q) (λ _ w'. At d lawful a q w' × Heard w') (Any d lawful)
            (push_received r) _ w1 at1
            λ _ w2 at2.
              Ends->>= (λ _. At d lawful a q) (λ _ w'. At d lawful a q w' × Heard w') (Any d lawful)
                _ _ w2
                (drive-Ends d lawful (At d lawful a q) d.clear_irq_status w2
                  λ _. (lawful.aired-clear_irq_status w2.driver ∙ at2.0, at2.1))
                λ _ w3 at3. (at3, inl refl)

  wait_for-Accepted :
      (a late : List Bytes) (woken : Bool) (w : Radio D)
      → At d lawful a [] w
      → Heard w
      → Ends (λ _. Accepted (a ++ late)) (Any d lawful) (wait_for d late woken w)
  unfolding wait_for
  wait_for-Accepted a [] woken w (on_air, left) heard = (rw (on_air, left) refl, heard)
  wait_for-Accepted a (body ∷ rest) false w (on_air, left) heard = (rw on_air refl, heard)
  wait_for-Accepted a (body ∷ rest) true w (on_air, left) heard =
      subst
        (λ l.
          Ends (λ _. Accepted l) (Any d lawful)
            ((tx d body >> set_restart true) (record w { to_send = rest })))
        (append_assoc a (body ∷ []) rest) (transmit-Accepted a rest body _ (on_air, refl))

  listen-Accepted :
      (a late : List Bytes) (woken : Bool) (w : Radio D)
      → At d lawful a [] w
      → Heard w
      → Ends (λ _. Accepted (a ++ late)) (Any d lawful) (listen d late woken w)
  unfolding listen
  listen-Accepted a late woken w at heard =
      Ends->>= (λ _ w'. At d lawful a [] w' × (lawful.listening w'.driver ≡ true))
        (λ _. Accepted (a ++ late)) (Any d lawful) _ _ w (restart_if_needed-At a [] w at heard)
        λ _ w1 (at1, on).
          Ends->>= (λ _ w'. At d lawful a [] w' × Heard w') (λ _. Accepted (a ++ late))
            (Any d lawful) _ _ w1
            (Ends->>= (λ _ w'. At d lawful a [] w' × (lawful.listening w'.driver ≡ true))
              (λ _ w'. At d lawful a [] w' × Heard w') (Any d lawful) _ _ w1
              (ask-Ends d lawful (λ w'. At d lawful a [] w' × (lawful.listening w'.driver ≡ true))
                d.process_irq_event w1
                (
                  (lawful.aired-process_irq_event w1.driver ∙ at1.0, at1.1),
                  lawful.listening-process_irq_event w1.driver ∙ on,
                ))
              λ irq w2 (at2, on2). handle_irq-At a [] irq w2 at2 on2)
            λ _ w3 (at3, heard3). wait_for-Accepted a late woken w3 at3 heard3

  round-Accepted :
      (queue late : List Bytes) (woken : Bool) (w : Radio D)
      → Heard w
      → Ends
          (λ _. Accepted (lawful.aired w.driver ++ (queue ++ late)))
          (Any d lawful)
          (round d queue late woken w)
  unfolding round
  round-Accepted [] late woken w heard = listen-Accepted _ late woken _ (refl, refl) heard
  round-Accepted (body ∷ rest) late woken w heard =
      subst
        (λ l.
          Ends (λ _. Accepted l) (Any d lawful)
            ((tx d body >> set_restart true) (record w { to_send = rest ++ late })))
        (append_assoc (lawful.aired w.driver) (body ∷ []) (rest ++ late))
        (transmit-Accepted _ (rest ++ late) body _ (refl, refl))

  rounds-Accepted :
      (inputs : List Input) (f : List Bytes) (w : Radio D)
      → Accepted f w
      → Ends (λ _. Accepted (f ++ given inputs)) (Any d lawful) (rounds d inputs w)
  unfolding rounds
  rounds-Accepted [] f w (same, heard) = (same ∙ sym (append-nil f), heard)
  rounds-Accepted (i ∷ rest) f w (same, heard) =
      Ends->>= (λ _. Accepted (f ++ i.arrived ++ i.late)) (λ _. Accepted (f ++ given (i ∷ rest)))
        (Any d lawful) _ _ w
        (subst
          (λ l.
            Ends (λ _. Accepted l) (Any d lawful)
              (round d (w.to_send ++ i.arrived) i.late i.woken w))
          (assoc_left _ w.to_send i.arrived i.late ∙ ap (λ l. l ++ i.arrived ++ i.late) same)
          (round-Accepted (w.to_send ++ i.arrived) i.late i.woken w heard))
        λ _ w1 next.
          subst (λ l. Ends (λ _. Accepted l) (Any d lawful) (rounds d rest w1))
            (sym (assoc_left f i.arrived i.late (given rest)))
            (rounds-Accepted rest (f ++ i.arrived ++ i.late) w1 next)

  -- `run`, for any number of rounds, does not panic; and while no call of the driver fails, the packets on
  -- the air and behind them those in the channel are the ones from before and all that came, in their
  -- order, and the radio listens or will be made to before it is asked for an interrupt.
  pub run-Accepted :
      (inputs : List Input) (w : Radio D)
      → Ends
          (λ _. Accepted (lawful.aired w.driver ++ w.to_send ++ given inputs))
          (Any d lawful)
          (run d inputs w)
  unfolding run
  run-Accepted inputs w =
      Ends->>=
        (λ _ w'.
          At d lawful (lawful.aired w.driver) w.to_send w' × (lawful.listening w'.driver ≡ true))
        (λ _. Accepted (lawful.aired w.driver ++ w.to_send ++ given inputs)) (Any d lawful) _ _ w
        (restart_rx-At _ _ w (refl, refl))
        λ _ w1 (at, on).
          Ends->>= (λ _. Accepted (lawful.aired w.driver ++ w.to_send))
            (λ _. Accepted (lawful.aired w.driver ++ w.to_send ++ given inputs)) (Any d lawful)
            (set_restart false) _ w1 (rw (at.0, at.1) refl, inr on)
            λ _ w2 next. rounds-Accepted inputs _ w2 next
