-- ===== src/Cascade/Resolve.antt =====
-- Cascade.Resolve against a description of its result by filters on the sorted layers.
use cli_toolkit.Base.{
  Bool, true, false, List, [], ◌∷◌, ◌++◌, reverse, Bytes, ◌≡◌, refl, sym, ap, ◌∙◌, append_assoc,
  append-nil, if◌then◌else◌,
}
use cli_toolkit.Cascade.{
  Getenv, Loaded, value, absent, failed, Layer, Resolved, overlay, visit, visit_all, resolve,
}

-- The names of the layers that load, in the order of the list.
abbrev pub add_loaded : {A E : Type 0} → Bytes → Loaded A E → List Bytes → List Bytes
add_loaded name (value v) names = name ∷ names
add_loaded name absent names = names
add_loaded name (failed e) names = names

abbrev pub loaded_names : {A E : Type 0} → Getenv → List (Layer A E) → List Bytes
loaded_names getenv [] = []
loaded_names getenv (l ∷ ls) =
    add_loaded l.provider.name (l.provider.load getenv) (loaded_names getenv ls)

-- The values of the layers that load.
abbrev pub add_value : {A E : Type 0} → Loaded A E → List A → List A
add_value (value v) vs = v ∷ vs
add_value absent vs = vs
add_value (failed e) vs = vs

abbrev pub loaded_values : {A E : Type 0} → Getenv → List (Layer A E) → List A
loaded_values getenv [] = []
loaded_values getenv (l ∷ ls) = add_value (l.provider.load getenv) (loaded_values getenv ls)

-- The names and errors of the layers that fail, the absent ones not among them.
abbrev pub add_failure : {A E : Type 0} → Bytes → Loaded A E → List (Bytes × E) → List (Bytes × E)
add_failure name (value v) es = es
add_failure name absent es = es
add_failure name (failed e) es = (name, e) ∷ es

abbrev pub failures : {A E : Type 0} → Getenv → List (Layer A E) → List (Bytes × E)
failures getenv [] = []
failures getenv (l ∷ ls) = add_failure l.provider.name (l.provider.load getenv) (failures getenv ls)

-- The first value is the base, and the later ones are merged over it, one after the other.
abbrev pub merge_over : {A : Type 0} → (A → A → A) → A → List A → A
merge_over merge base [] = base
merge_over merge base (v ∷ vs) = merge_over merge (merge base v) vs

abbrev pub merge_values : {A : Type 0} → (A → A → A) → A → List A → A
merge_values merge zero_value [] = zero_value
merge_values merge zero_value (v ∷ vs) = merge_over merge v vs

-- From a state with a base on: what is merged over it, or the first base.
abbrev continue_merge : {A E : Type 0} → (A → A → A) → Resolved A E → List A → A
continue_merge merge rv vs =
    if rv.have_base then merge_over merge rv.merged vs else merge_values merge rv.merged vs

module _ {A E : Type 0} (merge : A → A → A) (getenv : Getenv) where
  visit-sources :
      (name : Bytes) (r : Loaded A E) (rv : Resolved A E) (names : List Bytes)
      → (visit merge name r rv).sources ++ names ≡ rv.sources ++ add_loaded name r names
  unfolding visit overlay
  visit-sources name (value v) rv names = append_assoc rv.sources (name ∷ []) names
  visit-sources name absent rv names = refl
  visit-sources name (failed e) rv names = refl

  visit-errors :
      (name : Bytes) (r : Loaded A E) (rv : Resolved A E) (es : List (Bytes × E))
      → (visit merge name r rv).errors ++ es ≡ rv.errors ++ add_failure name r es
  unfolding visit overlay
  visit-errors name (value v) rv es = refl
  visit-errors name absent rv es = refl
  visit-errors name (failed e) rv es = append_assoc rv.errors ((name, e) ∷ []) es

  visit-merged :
      (name : Bytes) (r : Loaded A E) (rv : Resolved A E) (vs : List A)
      → continue_merge merge (visit merge name r rv) vs ≡ continue_merge merge rv (add_value r vs)
  unfolding visit overlay
  visit-merged name (value v) rv vs = based rv.have_base
    where
      based :
          (b : Bool)
          → merge_over merge (if b then merge rv.merged v else v) vs ≡ (
              if b
              then merge_over merge rv.merged (v ∷ vs)
              else merge_values merge rv.merged (v ∷ vs))
      based true = refl
      based false = refl
  visit-merged name absent rv vs = refl
  visit-merged name (failed e) rv vs = refl

  visit_all-sources :
      (ls : List (Layer A E)) (rv : Resolved A E)
      → (visit_all merge getenv ls rv).sources ≡ rv.sources ++ loaded_names getenv ls
  unfolding visit_all
  visit_all-sources [] rv = sym (append-nil rv.sources)
  visit_all-sources (l ∷ ls) rv =
      visit_all-sources ls (visit merge l.provider.name (l.provider.load getenv) rv)
      ∙ visit-sources l.provider.name (l.provider.load getenv) rv (loaded_names getenv ls)

  visit_all-errors :
      (ls : List (Layer A E)) (rv : Resolved A E)
      → (visit_all merge getenv ls rv).errors ≡ rv.errors ++ failures getenv ls
  unfolding visit_all
  visit_all-errors [] rv = sym (append-nil rv.errors)
  visit_all-errors (l ∷ ls) rv =
      visit_all-errors ls (visit merge l.provider.name (l.provider.load getenv) rv)
      ∙ visit-errors l.provider.name (l.provider.load getenv) rv (failures getenv ls)

  visit_all-merged :
      (ls : List (Layer A E)) (rv : Resolved A E)
      → (visit_all merge getenv ls rv).merged ≡ continue_merge merge rv (loaded_values getenv ls)
  unfolding visit_all
  visit_all-merged [] rv = stay rv.have_base
    where
      stay :
          (b : Bool)
          → rv.merged
            ≡ (if b then merge_over merge rv.merged [] else merge_values merge rv.merged [])
      stay true = refl
      stay false = refl
  visit_all-merged (l ∷ ls) rv =
      visit_all-merged ls (visit merge l.provider.name (l.provider.load getenv) rv)
      ∙ visit-merged l.provider.name (l.provider.load getenv) rv (loaded_values getenv ls)

  -- Resolve, for whatever order the sort gives: the value is that of the first layer that loads with
  -- those of the later ones merged over it, or the zero value where none loads; the sources are the
  -- layers that load, the last one first; the errors are those of the layers that fail, in order, and
  -- a layer that is absent is in neither.
  pub resolve_lem :
      (sort : List (Layer A E) → List (Layer A E)) (zero_value : A) (layers : List (Layer A E))
      → let rv = resolve merge sort zero_value layers getenv in
        (rv.merged ≡ merge_values merge zero_value (loaded_values getenv (sort layers)))
        × (rv.sources ≡ reverse (loaded_names getenv (sort layers)))
        × (rv.errors ≡ failures getenv (sort layers))
  resolve_lem sort zero_value layers =
      let start : Resolved A E = record {
        merged = zero_value;
        have_base = false;
        sources = [];
        errors = [];
      } in
      unfold resolve in
      (
        visit_all-merged (sort layers) start,
        ap reverse (visit_all-sources (sort layers) start),
        visit_all-errors (sort layers) start,
      )
