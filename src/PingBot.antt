-- ===== src/PingBot.antt =====
-- `PingBot` of firmware/chiyocore/src/ping_bot.rs, a layer that answers pings. A `str` is the list of its
-- code points; its encoding, and how a path is printed, are parameters.
pub mod Reply
use chiyocore.Base.{
  ℕ, ◌+◌, ◌*◌, ◌&&◌, ◌||◌, Bool, true, false, Option, none, some, List, [], ◌∷◌, ◌++◌, leb, ◌==◌,
  if◌then◌else◌,
}
use chiyocore.Base.Bytes.{Bytes, bytes_eq}
use chiyocore.Hal.Filesystem.{codes}
use chiyocore.Storage.Messages.{TextMessageData}
use chiyocore.Storage.Channels.{Channel}
use chiyocore.Mesh.Types.{Env, Reception, decode_failure}
use chiyocore.Mesh.Monad.{World, Call, pure, or_throw, ◌>>=◌}
use chiyocore.Mesh.Layer.{Layer, Event}
use chiyocore.Mesh.Send.{send_channel_message}

abbrev pub Str : Type 0
Str = List ℕ

pub record PingBot : Type 0 where
  pub name : Str
  pub channels : List Bytes

pub record Format (P : Type 0) : Type 0 where
  pub as_utf8 : Bytes → Option Str
  pub as_bytes : Str → Bytes
  pub debug_path : P → Str

-- `char::is_whitespace`: the property White_Space.
abbrev pub between : ℕ → ℕ → ℕ → Bool
between a b c = leb a c && leb c b

unfoldable pub is_whitespace : ℕ → Bool
is_whitespace c =
    between 9 13 c
    || c == 32
    || c == 133
    || c == 160
    || c == 5760
    || between 8192 8202 c
    || between 8232 8233 c
    || c == 8239
    || c == 8287
    || c == 12288

unfoldable pub trim_start : (ℕ → Bool) → Str → Str
trim_start p [] = []
trim_start p (c ∷ cs) = let rest = trim_start p cs in if p c then rest else c ∷ cs

-- Behind the last code point that `p` refuses.
unfoldable pub trim_end : (ℕ → Bool) → Str → Str
trim_end p [] = []
trim_end p (c ∷ cs) = elim (trim_end p cs) [
  | [] ↦ if p c then [] else c ∷ []
  | ◌∷◌ d ds ↦ c ∷ d ∷ ds
]

abbrev pub trim : Str → Str
trim s = trim_start is_whitespace (trim_end is_whitespace s)

-- `split_once(':')`.
unfoldable pub split_once : ℕ → Str → Option (Str × Str)
split_once d [] = none
split_once d (c ∷ cs) =
    let later = split_once d cs in
    if c == d
    then some ([], cs)
    else elim later [ none ↦ none | some (before, after) ↦ some (c ∷ before, after) ]

abbrev pub contains : Bytes → List Bytes → Bool
contains name [] = false
contains name (n ∷ ns) = bytes_eq n name || contains name ns

-- "＼(≧▽≦)／".
abbrev pub face : Str
face = 65340 ∷ 40 ∷ 8807 ∷ 9661 ∷ 8806 ∷ 41 ∷ 65295 ∷ []

-- The `let … else` and the `if` behind it.
unfoldable pub of_parts : Option (Str × Str) → Option Str
of_parts none = none
of_parts (some (user, msg)) = if bytes_eq (trim msg) (codes "!ping") then some user else none

-- The user of a ping.
unfoldable pub ping_of : Str → Option Str
unfolding of_parts
ping_of text = of_parts (split_once 58 (trim (trim_end (λ c. c == 0) text)))

module _ {P S : Type 0} (e : Env P S) (f : Format P) where
  unfoldable pub pong : Str → Str → P → Str
  pong name user path =
      name
      ++ codes ": pong @["
      ++ user
      ++ codes "] "
      ++ face
      ++ 10 ∷ codes "path: "
      ++ f.debug_path path

  -- The text of `message`, as `plaintext` makes it.
  abbrev pub answer : Reception P → Str → PingBot → TextMessageData
  answer r user bot = record {
    timestamp = e.now;
    text_type = 0;
    attempt = 0;
    message = f.as_bytes (pong bot.name user r.packet.path);
  }

  unfoldable pub reply : Reception P → Channel → Option Str → Call (World P S PingBot) (Unit {0})
  reply r channel none = pure tt
  reply r channel (some user) = λ w.
      (send_channel_message e channel.hash channel.key (answer r user w.1)
            (some (e.retransmit_delay r.packet * 2))
          >>= λ _. pure tt)
        w

  unfoldable pub group_text :
      Reception P → Channel → TextMessageData → Call (World P S PingBot) (Unit {0})
  group_text r channel message w =
      (if contains channel.name w.1.channels
          then (or_throw (f.as_utf8 message.message) decode_failure >>= λ text.
              reply r channel (ping_of text))
          else pure tt)
        w

  unfoldable pub ping_bot : Layer P S PingBot
  ping_bot r Event.packet = pure tt
  ping_bot r (Event.text_message _ _) = pure tt
  ping_bot r (Event.group_text channel message) = group_text r channel message
  ping_bot r (Event.ack _) = pure tt
  ping_bot r (Event.advert _) = pure tt
  ping_bot r (Event.returned_path _ _) = pure tt
  ping_bot r (Event.response _ _) = pure tt
  ping_bot r (Event.request _ _) = pure tt
  ping_bot r (Event.anonymous_request _ _) = pure tt
  ping_bot r (Event.trace_packet _ _) = pure tt
  ping_bot r (Event.control_packet _) = pure tt
