-- ===== src/App/Pools.antt =====
-- src-server/src/types.rs: what stays of the pools when one of them, or one of its workers, changes.
use bakpia_run.Prelude.{
  ℕ, zero, suc, ◌<◌, ◌≡◌, refl, ap, ◌∙◌, inl, inr, true, arith, Bool-cases, some, List, [], ◌∷◌,
  length, get_elem?, All,
}
use mathlib.Core.Path.{subst}
use bakpia_run.Prelude.Maps.{get, contains_key}
use bakpia_run.Text.{Text, text_eq}
use bakpia_run.Text.Matching.{text_keys}
use bakpia_run.Routing.{RoutingRule}
use bakpia_run.Worker.{Worker}
use bakpia_run.WorkerPool.{WorkerPool}
use bakpia_run.App.{adjust, change_at}

pub adjust-contains_key :
    (name key : Text) (f : WorkerPool → WorkerPool) (ps : List (Text × WorkerPool))
    → contains_key key (adjust name f ps) ≡ contains_key key ps
unfolding adjust contains_key
adjust-contains_key name key f [] = refl
adjust-contains_key name key f ((n, p) ∷ ps) = ground (arith, adjust-contains_key name key f ps)

module _ {Pool : Type 0} (P : Pool → Type 0) where
  -- Of each pool with its name.
  abbrev pub Each : List (Text × Pool) → Type 0
  Each ps = All (λ (np : Text × Pool). P np.1) ps

  pub get-Each :
      (name : Text) (p : Pool) (ps : List (Text × Pool)) → Each ps → get name ps ≡ some p → P p
  unfolding get
  get-Each name p [] h e = absurd (ground (arith, e))
  get-Each name p ((n, q) ∷ ps) (hq, h) e = elim (Bool-cases (text_eq n name)) [
    | inl same ↦ subst P (ground (arith, (rw same at e))) hq
    | inr other ↦ get-Each name p ps h (rw other at e)
  ]

module _ (P : WorkerPool → Type 0) where
  pub adjust-Each :
      (name : Text) (f : WorkerPool → WorkerPool) (ps : List (Text × WorkerPool))
      → ((p : WorkerPool) → P p → P (f p))
      → Each P ps
      → Each P (adjust name f ps)
  unfolding adjust
  adjust-Each name f [] keep h = h
  adjust-Each name f ((n, p) ∷ ps) keep (hp, h) = elim (Bool-cases (text_eq n name)) [
    | inl e ↦ rw e (keep p hp, h)
    | inr e ↦ rw e (hp, adjust-Each name f ps keep h)
  ]

module _ (Q : Worker → Type 0) where
  pub change_at-All :
      (i : ℕ) (f : Worker → Worker) (ws : List Worker)
      → ((w : Worker) → Q w → Q (f w))
      → All Q ws
      → All Q (change_at i f ws)
  change_at-All i f [] keep h = h
  change_at-All zero f (w ∷ ws) keep (hw, h) = (keep w hw, h)
  change_at-All (suc i) f (w ∷ ws) keep (hw, h) = (hw, change_at-All i f ws keep h)

module _ {A : Type 0} where
  pub get_elem?-All :
      (Q : A → Type 0) (ws : List A) (i : ℕ) (w : A) → All Q ws → get_elem? ws i ≡ some w → Q w
  get_elem?-All Q [] i w h e = absurd (ground (arith, e))
  get_elem?-All Q (v ∷ ws) zero w (hv, h) e = subst Q (ground (arith, e)) hv
  get_elem?-All Q (v ∷ ws) (suc i) w (hv, h) e = get_elem?-All Q ws i w h e

  pub get_elem?-lt : (ws : List A) (i : ℕ) → i < length ws → (w : A) × (get_elem? ws i ≡ some w)
  get_elem?-lt [] i h = absurd (ground (arith, h))
  get_elem?-lt (w ∷ ws) zero h = (w, refl)
  get_elem?-lt (w ∷ ws) (suc i) h = get_elem?-lt ws i (omega (arith, h))

pub length-change_at :
    (i : ℕ) (f : Worker → Worker) (ws : List Worker) → length (change_at i f ws) ≡ length ws
length-change_at i f [] = refl
length-change_at zero f (w ∷ ws) = refl
length-change_at (suc i) f (w ∷ ws) = ap suc (length-change_at i f ws)

-- A table leads to the pools of another list with the same names.
pub IsRouted-names :
    {Pool : Type 0} (ps qs : List (Text × Pool))
    → ((key : Text) → contains_key key qs ≡ contains_key key ps)
    → (rs : List RoutingRule) → All (λ (r : RoutingRule). contains_key r.pool_name ps ≡ true) rs
    → All (λ (r : RoutingRule). contains_key r.pool_name qs ≡ true) rs
IsRouted-names ps qs same [] h = tt
IsRouted-names ps qs same (r ∷ rs) (hr, h) = (same r.pool_name ∙ hr, IsRouted-names ps qs same rs h)
