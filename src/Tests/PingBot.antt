-- ===== src/Tests/PingBot.antt =====
-- A ping at a concrete input.
use chiyocore.Base.{◌≡◌, refl, some, [], ◌∷◌, ◌++◌, replicate}
use chiyocore.Hal.Filesystem.{codes}
use chiyocore.PingBot.{ping_of, is_whitespace}
use chiyocore.PingBot.Reply.{ping_of-name}

-- "eve: !ping \0\0".
ping_of-name_example :
    ping_of
      ((101 ∷ (118 ∷ 101 ∷ []) ++ 58 ∷ 32 ∷ []) ++ codes "!ping" ++ (32 ∷ []) ++ replicate 2 0)
    ≡ some (101 ∷ 118 ∷ 101 ∷ [])
unfolding is_whitespace
ping_of-name_example =
    ping_of-name 101 (118 ∷ 101 ∷ []) (32 ∷ []) (32 ∷ []) 2 refl (refl, (refl, (refl, tt)))
      (refl, tt) (refl, tt)
