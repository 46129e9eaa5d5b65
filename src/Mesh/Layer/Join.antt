-- ===== src/Mesh/Layer/Join.antt =====
-- A tuple of layers, as its parts see it and as the node sees it.
use chiyocore.Base.{◌≡◌, refl, ap, ◌∙◌, ◌≢◌}
use chiyocore.Mesh.Types.{Node, Reception}
use chiyocore.Mesh.Monad.{Result, ok, err, panicked, blocked, World}
use chiyocore.Mesh.Layer.{Layer, Event, join, first_error}

module _ {P S L M : Type 0} (a : Layer P S L) (b : Layer P S M) where
  -- A property of the node that both layers keep is kept by the tuple of them, whether either of them
  -- fails or not.
  pub join-keeps :
      (I : Node P S → Type 0)
      (keeps_a : (r : Reception P) (ev : Event P) (w : World P S L) → I w.0 → I (a r ev w).1.0)
      (keeps_b : (r : Reception P) (ev : Event P) (w : World P S M) → I w.0 → I (b r ev w).1.0)
      (r : Reception P) (ev : Event P) (n : Node P S) (l : L) (m : M)
      → I n
      → I (join a b r ev (n, (l, m))).1.0
  unfolding join
  join-keeps I ka kb r ev n l m i = go (a r ev (n, l)) (ka r ev (n, l) i)
    where
      go :
          (x : Result (Unit {0}) × World P S L)
          → I x.1.0
          → I (join (λ _ _ _. x) b r ev (n, (l, m))).1.0
      go (ok u, (n', l')) j = kb r ev (n', m) j
      go (err er, (n', l')) j = kb r ev (n', m) j
      go (panicked, (n', l')) j = j
      go (blocked, (n', l')) j = j

  -- If both layers return, the second runs on the node that the first left, even if the first failed;
  -- both states are the layers' own; and the result is the error of the first, or else the second's.
  pub join-runs_both :
      (r : Reception P) (ev : Event P) (n n' n'' : Node P S) (l l' : L) (m m' : M)
      (x y : Result (Unit {0}))
      → x ≢ panicked
      → x ≢ blocked
      → a r ev (n, l) ≡ (x, (n', l'))
      → b r ev (n', m) ≡ (y, (n'', m'))
      → join a b r ev (n, (l, m)) ≡ (first_error x y, (n'', (l', m')))
  unfolding join
  join-runs_both r ev n n' n'' l l' m m' (ok u) y p q ea eb =
      ap (λ x. join (λ _ _ _. x) b r ev (n, (l, m))) ea
      ∙ ap (λ y. join {L = L} (λ _ _ _. (ok u, (n', l'))) (λ _ _ _. y) r ev (n, (l, m))) eb
  join-runs_both r ev n n' n'' l l' m m' (err er) y p q ea eb =
      ap (λ x. join (λ _ _ _. x) b r ev (n, (l, m))) ea
      ∙ ap (λ y. join {L = L} (λ _ _ _. (err er, (n', l'))) (λ _ _ _. y) r ev (n, (l, m))) eb
  join-runs_both r ev n n' n'' l l' m m' panicked y p q ea eb = absurd (p refl)
  join-runs_both r ev n n' n'' l l' m m' blocked y p q ea eb = absurd (q refl)
