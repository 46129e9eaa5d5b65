-- ===== src/Companion/Layer/Login.antt =====
-- A login from the command to the answer of the repeater.
use chiyocore.Base.{
  ◌≡◌, refl, ap, sym, ◌∙◌, Bool-cases, Option, none, some, Option-cases, inl, inr, if◌then◌else◌,
  subst,
}
use chiyocore.Base.Bytes.{Bytes, bytes_eq}
use chiyocore.Storage.Contacts.{CachedContact}
use chiyocore.Mesh.Types.{Env}
use chiyocore.Mesh.Monad.{World, Result, ok}
use chiyocore.Mesh.Monad
use chiyocore.Mesh.Send.{send_anon_req, log_packet, transmit}
use chiyocore.Companion.Session.{Host, Response, binary_response, now}
use chiyocore.Companion.Reply.{done, >>=-done}
use chiyocore.Companion.Handler.{State}
use chiyocore.Companion.Handler.Mesh.{send_login}
use chiyocore.Companion.Layer.{write_sink, take_login, login_response, take_response, response}

module _ {P S L : Type 0} (e : Env P S) where
  -- Sending leaves the layers' state alone.
  send_anon_req-session :
      (contact : Bytes) (path : Option P) (b : Bytes) (w : World P S L)
      → (send_anon_req e contact path b w).1.1 ≡ w.1
  unfolding send_anon_req Monad.◌>>=◌ log_packet transmit
  send_anon_req-session contact path b w = elim (Option-cases (e.make_anon_req b contact)) [
    | inl broken ↦ rw broken refl
    | inr (payload, made) ↦ rw made refl
  ]

module _ {P S Q K : Type 0} (e : Env P S) (h : Host P Q K) where
  abbrev pub with_login : Option Bytes → State P S Q K → State P S Q K
  with_login o w = (w.0, record w.1 { login_in_progress = o })

  send_login-login_in_progress :
      (pk password : Bytes) (w w' : State P S Q K) {r : Response P}
      → send_login e h pk password w ≡ (done r, w')
      → w'.1.login_in_progress ≡ some pk
  unfolding send_login
  send_login-login_in_progress pk password w w' h1 =
      let (n, w1, a1, k1) = >>=-done _ _ w h1 in
      let (c, w2, a2, k2) = >>=-done _ _ w1 k1 in
      let (s, w3, a3, k3) = >>=-done _ _ w2 k2 in
      let (u, w4, a4, k4) = >>=-done _ _ w3 k3 in
      let (t, w5, a5, k5) = >>=-done _ _ w4 k4 in
      sym (ap (λ x. x.1.1.login_in_progress) k5)
      ∙ sym (ap (λ x. x.1.1.login_in_progress) a5)
      ∙ ap (λ s. s.login_in_progress)
          (send_anon_req-session e c.key c.path (h.encode_login (now s) password) w4)
      ∙ sym (ap (λ x. x.1.1.login_in_progress) a4)

  response-with_login :
      (pk : Bytes) (contact : CachedContact P) (body : Bytes) (w : State P S Q K)
      → response e h contact body (with_login (some pk) w) ≡ (
          if bytes_eq pk contact.key
          then login_response e h pk (h.decode_login_response body) (with_login none w)
          else write_sink e h (binary_response body) (with_login (some pk) w))
  unfolding response take_login take_response
  response-with_login pk contact body w = elim (Bool-cases (bytes_eq pk contact.key)) [
    | inl same ↦ rw same refl
    | inr other ↦ rw other refl
  ]

  -- After a login command was answered, and before another, a response of the contact that was to be
  -- logged in to is read as the answer, once; any other response is handed on as it is, and the login
  -- stays in progress.
  pub send_login-response :
      (pk password : Bytes) (w w' : State P S Q K) (r : Response P)
      → send_login e h pk password w ≡ (done r, w')
      → (contact : CachedContact P) (body : Bytes)
      → (w'.1.login_in_progress ≡ some pk)
        × (response e h contact body w' ≡ (
            if bytes_eq pk contact.key
            then login_response e h pk (h.decode_login_response body) (with_login none w')
            else write_sink e h (binary_response body) w'))
  send_login-response pk password w w' r answered contact body =
      let waiting = send_login-login_in_progress pk password w w' answered in
      let same : with_login (some pk) w' ≡ w' = ap (λ o. with_login o w') (sym waiting) in
      (
        waiting,
        subst
            (λ (x : State P S Q K). response e h contact body x ≡ (
              if bytes_eq pk contact.key
              then login_response e h pk (h.decode_login_response body) (with_login none w')
              else write_sink e h (binary_response body) x))
            same (response-with_login pk contact body w'),
      )
