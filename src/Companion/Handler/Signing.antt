-- ===== src/Companion/Handler/Signing.antt =====
-- Signing in `impl CompanionHandler for Companion`: a signature is started, fed and finished by three
-- commands. The crate ed25519_compact is behind `Host`.
use chiyocore.Base.{◌≡◌, refl, sym, ap, ◌∙◌, Option, none, some, List, [], ◌∷◌, ◌++◌}
use mathlib.Core.List.{append_assoc, append-nil}
use chiyocore.Base.Bytes.{Bytes}
use chiyocore.Companion.Session.{Session, Host, Response, ok_packet, signature}
use chiyocore.Companion.Session
use chiyocore.Companion.Reply.{
  done, refused, Handler, pure, >>=-step, or_panic, or_refuse, ◌>>=◌, ◌>>◌,
}
use chiyocore.Companion.Handler.{State, get_session, put_session}

abbrev pub concat : List Bytes → Bytes
concat [] = []
concat (c ∷ cs) = c ++ concat cs

module _ {P S Q K : Type 0} (h : Host P Q K) where
  unfoldable pub sign_start : Handler (State P S Q K) (Response P)
  sign_start = do
    noise ← or_panic h.random
    put_session λ s. record s { signature_in_progress = some (h.sign_incremental noise) }
    pure (Session.Response.sign_start 0 16384)

  unfoldable pub sign_data : Bytes → Handler (State P S Q K) (Response P)
  sign_data body = do
    s ← get_session
    state ← or_refuse s.signature_in_progress
    put_session λ s. record s { signature_in_progress = some (h.absorb state body) }
    pure ok_packet

  unfoldable pub sign_finish : Handler (State P S Q K) (Response P)
  sign_finish = do
    s ← get_session
    put_session λ s. record s { signature_in_progress = none }
    state ← or_refuse s.signature_in_progress
    pure (signature (h.sign state))

module _ {P S Q K : Type 0} (h : Host P Q K) where
  -- The session with another signature in progress.
  abbrev pub with_signature : Option K → State P S Q K → State P S Q K
  with_signature o w = (w.0, record w.1 { signature_in_progress = o })

  -- `sign_data` for each of the chunks, and `sign_finish`.
  unfoldable pub sign_all : List Bytes → Handler (State P S Q K) (Response P)
  sign_all [] = sign_finish h
  sign_all (c ∷ cs) = sign_data h c >>= λ _. sign_all cs

  sign_all-concat :
      ((k : K) (a b : Bytes) → h.absorb (h.absorb k a) b ≡ h.absorb k (a ++ b))
      → (chunks : List Bytes) (k : K) (before : Bytes) (w : State P S Q K)
      → sign_all chunks (with_signature (some (h.absorb k before)) w)
        ≡ (done (signature (h.sign (h.absorb k (before ++ concat chunks)))), with_signature none w)
  unfolding sign_all sign_finish sign_data ◌>>=◌
  sign_all-concat law [] k before w =
      ap (λ b. (done (signature (h.sign (h.absorb k b))), with_signature none w))
        (sym (append-nil before))
  sign_all-concat law (c ∷ cs) k before w =
      ap (λ k. sign_all cs (with_signature (some k) w)) (law k before c)
      ∙ sign_all-concat law cs k (before ++ c) w
      ∙ ap (λ b. (done (signature (h.sign (h.absorb k b))), with_signature none w))
          (append_assoc before c (concat cs))

  sign_start-with_signature :
      (noise : Bytes) (w : State P S Q K)
      → h.random ≡ some noise
      → sign_start h w ≡ (
        done (Session.Response.sign_start 0 16384),
        with_signature (some (h.sign_incremental noise)) w,
      )
  unfolding sign_start ◌>>=◌
  sign_start-with_signature noise w drawn = rw drawn refl

  -- A start, any data commands and a finish answer the signature of the data put together, with the noise
  -- that was drawn, and leave nothing in progress; nothing but that changes, and another finish is then
  -- refused. If random bytes are there, and absorbing bytes in turn is absorbing their concatenation.
  pub sign_start-sign_all :
      ((k : K) (a b : Bytes) → h.absorb (h.absorb k a) b ≡ h.absorb k (a ++ b))
      → ((k : K) → h.absorb k [] ≡ k)
      → (noise : Bytes) → h.random ≡ some noise
      → (chunks : List Bytes) (w : State P S Q K)
      → ((sign_start h >>= λ _. sign_all chunks) w ≡ (
        done (signature (h.sign (h.absorb (h.sign_incremental noise) (concat chunks)))),
        with_signature none w,
      ))
        × (sign_finish h (with_signature none w) ≡ (refused, with_signature none w))
  unfolding sign_finish ◌>>=◌
  sign_start-sign_all law law_nil noise drawn chunks w = (
    >>=-step (sign_start h) (λ _. sign_all chunks) w (sign_start-with_signature noise w drawn)
        ∙ ap (λ k. sign_all chunks (with_signature (some k) w))
            (sym (law_nil (h.sign_incremental noise)))
        ∙ sign_all-concat law chunks (h.sign_incremental noise) [] w,
    refl,
  )
