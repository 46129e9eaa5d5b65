-- ===== src/Tests/Lora.antt =====
-- A radio at concrete inputs.
use chiyocore.Base.{
  ℕ, ◌≡◌, ◌≢◌, refl, arith, Bool, true, false, Option, none, some, List, [], ◌∷◌, ◌++◌,
}
use chiyocore.Base.Bytes.{Bytes}
use chiyocore.Lora.{Driver, Radio, Received, Irq, Input, cad_check, run}
use chiyocore.Lora.Backoff.{Ends, IsRandom, Cleared, cad_check-Cleared}
use chiyocore.Lora.Air.{IsLawful}
use chiyocore.Lora.Rounds.{Accepted, given, run-Accepted}
use chiyocore.Lora.Channel.{PacketCodec, run_handler, run_handler-IsValid}
use chiyocore.Mesh.Monad.{err}
use chiyocore.Mesh.Types.{CompanionError}
use chiyocore.Mesh.Receive.Invariant
use chiyocore.PingBot.{PingBot, Format}
use chiyocore.Companion.Layer.Valid.{layers}
use chiyocore.Tests.Mesh.{env, node, node-IsValid, text_packet}
use chiyocore.Tests.Host.{host, session}

-- What is on the air, what is loaded, and whether the chip listens.
pub record Chip : Type 0 where
  pub air : List Bytes
  pub buffer : Option Bytes
  pub on : Bool

abbrev send_buffer : Option Bytes → Chip → Bool × Chip
send_buffer none c = (false, c)
send_buffer (some b) c = (true, record { air = c.air ++ b ∷ []; buffer = none; on = false })

-- A channel that is always busy, and no packets from others.
abbrev chip : Driver Chip
chip = record {
  prepare_for_cad = λ c. (true, record c { on = false });
  cad = λ c. (some true, c);
  prepare_for_tx = λ b c. (true, record c { buffer = some b });
  tx = λ c. send_buffer c.buffer c;
  prepare_for_rx = λ c. (true, c);
  start_rx = λ c. (true, record c { on = true });
  process_irq_event = λ c. (some Irq.nothing, c);
  get_rx_result = λ c. (none, c);
  clear_irq_status = λ c. (true, c);
  random_range = λ a b c. (a, c);
}

chip-IsRandom : IsRandom chip
chip-IsRandom = record { in_range = λ a b s h. (omega arith, h) }

chip-IsLawful : IsLawful chip
chip-IsLawful = record {
  aired = λ c. c.air;
  loaded = λ c. c.buffer;
  listening = λ c. c.on;
  aired-prepare_for_cad = λ s. refl;
  aired-cad = λ s. refl;
  aired-random_range = λ a b s. refl;
  aired-prepare_for_tx = λ b s. refl;
  aired-prepare_for_rx = λ s. refl;
  aired-start_rx = λ s. refl;
  aired-process_irq_event = λ s. refl;
  aired-get_rx_result = λ s. refl;
  aired-clear_irq_status = λ s. refl;
  loaded-prepare_for_tx = λ b s h. refl;
  aired-tx = λ b s h k. go s.buffer s b h;
  listening-start_rx = λ s h. refl;
  listening-process_irq_event = λ s. refl;
}
  where
    go :
        (o : Option Bytes) (s : Chip) (b : Bytes)
        → o ≡ some b
        → (send_buffer o s).1.air ≡ s.air ++ b ∷ []
    go none s b h = absurd (ground arith)
    go (some x) s b h = ground arith

abbrev radio : Radio Chip
radio = record {
  driver = record { air = []; buffer = none; on = false };
  to_send = (1 ∷ []) ∷ [];
  received = [];
  waits = [];
  needs_rx_restart = false;
}

cad_check-Cleared_example :
    Ends
      (λ _. Cleared chip chip-IsRandom radio)
      (Cleared chip chip-IsRandom radio)
      (cad_check chip radio)
cad_check-Cleared_example = cad_check-Cleared chip chip-IsRandom radio

abbrev inputs : List Input
inputs =
    record { arrived = []; late = (2 ∷ []) ∷ []; woken = false }
    ∷ record { arrived = (3 ∷ []) ∷ []; late = []; woken = true }
    ∷ []

run-Accepted_example :
    Ends
      (λ _.
        Accepted chip chip-IsLawful
          (chip-IsLawful.aired radio.driver ++ radio.to_send ++ given inputs))
      (λ _. Unit)
      (run chip inputs radio)
run-Accepted_example = run-Accepted chip chip-IsLawful inputs radio

abbrev pub codec : PacketCodec ℕ
codec = record { decode = λ b. some text_packet; encode_into_vec = λ p. none; written = λ p. [] }

abbrev pub format : Format ℕ
format = record { as_utf8 = some; as_bytes = λ s. s; debug_path = λ p. [] }

abbrev pub bot : PingBot
bot = record { name = 112 ∷ []; channels = [] }

abbrev pub slots : List Received
slots = record { bytes = 1 ∷ []; rssi = 10; snr = 20 } ∷ []

run_handler-IsValid_example :
    Invariant.IsValid env
      (run_handler env codec (layers env format host) slots (node, (session, bot))).1.0
    × ((x : CompanionError)
        → (run_handler env codec (layers env format host) slots (node, (session, bot))).0 ≢ err x)
run_handler-IsValid_example =
    run_handler-IsValid env codec format host slots (node, (session, bot)) node-IsValid
