-- ===== src/Lora/Air.antt =====
-- What is documented of the radio's driver, and the packets on the air through one transmission.
use chiyocore.Base.{
  ℕ, zero, suc, ◌+◌, ◌≤◌, ◌<◌, ◌≡◌, ◌∙◌, refl, ap, arith, Bool, true, false, Bool-cases, Option,
  none, some, List, [], ◌∷◌, ◌++◌, inl, inr, ltb, ltb→lt,
}
use chiyocore.Base.Bytes.{Bytes}
use chiyocore.Hal.Outcome.{Action}
use chiyocore.Lora.{
  Driver, Radio, back_off, cad_loop, cad_check, tx, drive, ask, ◌>>=◌, of_bool, of_option,
}
use chiyocore.Lora.Backoff.{Ends, Ends->>=}

-- What is documented of the driver, with the packets on the air, oldest first, the packet in its buffer,
-- and whether it listens without an end. A transmission ends the listening.
pub record IsLawful {D : Type 0} (d : Driver D) : Type 0 where
  pub aired : D → List Bytes
  pub loaded : D → Option Bytes
  pub listening : D → Bool
  pub aired-prepare_for_cad : (s : D) → aired (d.prepare_for_cad s).1 ≡ aired s
  pub aired-cad : (s : D) → aired (d.cad s).1 ≡ aired s
  pub aired-random_range : (a b : ℕ) (s : D) → aired (d.random_range a b s).1 ≡ aired s
  pub aired-prepare_for_tx : (b : Bytes) (s : D) → aired (d.prepare_for_tx b s).1 ≡ aired s
  pub aired-prepare_for_rx : (s : D) → aired (d.prepare_for_rx s).1 ≡ aired s
  pub aired-start_rx : (s : D) → aired (d.start_rx s).1 ≡ aired s
  pub aired-process_irq_event : (s : D) → aired (d.process_irq_event s).1 ≡ aired s
  pub aired-get_rx_result : (s : D) → aired (d.get_rx_result s).1 ≡ aired s
  pub aired-clear_irq_status : (s : D) → aired (d.clear_irq_status s).1 ≡ aired s
  pub loaded-prepare_for_tx :
      (b : Bytes) (s : D)
      → (d.prepare_for_tx b s).0 ≡ true
      → loaded (d.prepare_for_tx b s).1 ≡ some b
  pub aired-tx :
      (b : Bytes) (s : D)
      → loaded s ≡ some b
      → (d.tx s).0 ≡ true
      → aired (d.tx s).1 ≡ aired s ++ b ∷ []
  pub listening-start_rx : (s : D) → (d.start_rx s).0 ≡ true → listening (d.start_rx s).1 ≡ true
  pub listening-process_irq_event : (s : D) → listening (d.process_irq_event s).1 ≡ listening s

module _ {D : Type 0} (d : Driver D) (lawful : IsLawful d) where
  -- The packets on the air, and those in the channel.
  abbrev pub At : List Bytes → List Bytes → Radio D → Type 0
  At a q w = (lawful.aired w.driver ≡ a) × (w.to_send ≡ q)

  abbrev pub Any : Radio D → Type 0
  Any w = Unit

  -- A call of the driver that succeeds with something known of it.
  pub drive-Ends :
      (post : Radio D → Type 0) (f : D → Bool × D) (w : Radio D)
      → ((f w.driver).0 ≡ true → post (record w { driver = (f w.driver).1 }))
      → Ends (λ _. post) Any (drive f w)
  drive-Ends post f w h = go (f w.driver).0 h
    where
      go :
          (b : Bool)
          → (b ≡ true → post (record w { driver = (f w.driver).1 }))
          → Ends (λ _. post) Any (of_bool b, record w { driver = (f w.driver).1 })
      go true h = h refl
      go false h = tt

  pub ask-Ends :
      {A : Type 0} (post : Radio D → Type 0) (f : D → Option A × D) (w : Radio D)
      → post (record w { driver = (f w.driver).1 })
      → Ends (λ _. post) Any (ask f w)
  ask-Ends {A = A} post f w p = go (f w.driver).0
    where
      go : (o : Option A) → Ends (λ _. post) Any (of_option o, record w { driver = (f w.driver).1 })
      go (some a) = p
      go none = tt

  back_off-At :
      (a q : List Bytes) (tries : ℕ) (rest : Action (Radio D) (Unit {0})) (busy : Bool)
      (w : Radio D)
      → At a q w
      → ((w' : Radio D) → At a q w' → Ends (λ _. At a q) Any (rest w'))
      → Ends (λ _. At a q) Any (back_off d tries rest busy w)
  unfolding back_off ◌>>=◌
  back_off-At a q tries rest false w at next = at
  back_off-At a q tries rest true w at next =
      next _ (lawful.aired-random_range 50 200 w.driver ∙ at.0, at.1)

  cad_loop-At :
      (a q : List Bytes) (fuel tries : ℕ) (w : Radio D)
      → tries ≤ 5
      → 5 < fuel + tries
      → At a q w
      → Ends (λ _. At a q) Any (cad_loop d fuel tries w)
  unfolding cad_loop
  cad_loop-At a q zero tries w h enough at = absurd (omega arith)
  cad_loop-At a q (suc fuel) tries w h enough at = elim (Bool-cases (ltb tries 5)) [
    | inl more ↦ rw more (
        Ends->>= (λ _. At a q) (λ _. At a q) Any _ _ w
          (drive-Ends (At a q) d.prepare_for_cad w
            λ _. (lawful.aired-prepare_for_cad w.driver ∙ at.0, at.1))
          λ _ w1 at1.
            Ends->>= (λ _. At a q) (λ _. At a q) Any _ _ w1
              (ask-Ends (At a q) d.cad w1 (lawful.aired-cad w1.driver ∙ at1.0, at1.1))
              λ busy w2 at2. back_off-At a q (suc tries) _ busy w2 at2 λ w3 at3.
                cad_loop-At a q fuel (suc tries) w3 (ltb→lt tries 5 more) (omega arith) at3)
    | inr last ↦ rw last at
  ]

  -- A successful transmission is on the air.
  pub tx-At :
      (a q : List Bytes) (body : Bytes) (w : Radio D)
      → At a q w
      → Ends (λ _. At (a ++ body ∷ []) q) Any (tx d body w)
  unfolding tx cad_check
  tx-At a q body w at =
      Ends->>= (λ _. At a q) (λ _. At (a ++ body ∷ []) q) Any _ _ w
        (cad_loop-At a q 6 0 w (omega arith) (omega arith) at)
        λ _ w1 at1.
          Ends->>= (λ _ w2. (lawful.loaded w2.driver ≡ some body) × At a q w2)
            (λ _. At (a ++ body ∷ []) q) Any _ _ w1
            (drive-Ends (λ w2. (lawful.loaded w2.driver ≡ some body) × At a q w2)
              (d.prepare_for_tx body) w1
              λ good. (
                lawful.loaded-prepare_for_tx body w1.driver good,
                (lawful.aired-prepare_for_tx body w1.driver ∙ at1.0, at1.1),
              ))
            λ _ w2 ready. drive-Ends (At (a ++ body ∷ []) q) d.tx w2 λ good. (
              lawful.aired-tx body w2.driver ready.0 good ∙ ap (λ l. l ++ body ∷ []) ready.1.0,
              ready.1.1,
            )
