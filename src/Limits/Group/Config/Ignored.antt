-- ===== src/Limits/Group/Config/Ignored.antt =====
-- The arguments of a `destination` directive have no effect.
use madmail.Prelude.{
  String, Option, List, [], ◌∷◌, ◌++◌, ◌≡◌, refl, arith, length, length-append, ap, subst,
}
use madmail.Prelude.Int.{ℤ}
use madmail.Limits.Group.{Group}
use madmail.Limits.Group.Config.{
  Node, Ctor, Init, ready, config_error, panics, Collected, add_scope, ctor_of, collect, init,
  ◌>>=◌, bucket_set, assemble, nothing,
}

bind_ready :
    {A B : Type 0} (m : Init A) (f : A → Init B) {b : B}
    → (m >>= f) ≡ ready b
    → (a : A) × (m ≡ ready a) × (f a ≡ ready b)
bind_ready (ready a) f h = (a, refl, h)
bind_ready config_error f h = cc
bind_ready panics f h = cc

-- What `Init` uses of the collected lists: of `destL`, only whether it is empty.
record Alike (c d : Collected) : Type 0 where
  global : c.global ≡ d.global
  ip : c.ip ≡ d.ip
  source : c.source ≡ d.source
  dest : length c.dest ≡ length d.dest

add_scope-Alike :
    (c c' d d' : Collected) (scope : String) (k : Ctor)
    → Alike c c'
    → add_scope c scope k ≡ ready d
    → add_scope c' scope k ≡ ready d'
    → Alike d d'
unfolding add_scope
add_scope-Alike c c' d d' scope k a h h' =
    ground (arith, length-append c.dest (k ∷ []), length-append c'.dest (k ∷ []))

add_dest-Alike :
    (c c' d d' : Collected) (k k' : Ctor)
    → Alike c c'
    → add_scope c "destination" k ≡ ready d
    → add_scope c' "destination" k' ≡ ready d'
    → Alike d d'
unfolding add_scope
add_dest-Alike c c' d d' k k' a h h' =
    ground (arith, length-append c.dest (k ∷ []), length-append c'.dest (k' ∷ []))

abbrev pub destination : List String → Node
destination args = record { name = "destination"; args = args }

bucket_set-eq :
    (xs ys cs ds : List Ctor)
    → length xs ≡ length ys
    → cs ≡ ds
    → bucket_set xs cs ≡ bucket_set ys ds
bucket_set-eq [] [] cs ds h e = refl
bucket_set-eq [] (y ∷ ys) cs ds h e = absurd (omega arith)
bucket_set-eq (x ∷ xs) [] cs ds h e = absurd (omega arith)
bucket_set-eq (x ∷ xs) (y ∷ ys) cs ds h e = rw e

assemble-Alike : (c d : Collected) → Alike c d → assemble c ≡ assemble d
assemble-Alike c d a = ground (
  arith,
  bucket_set-eq c.ip d.ip c.ip d.ip (ap length a.ip) a.ip,
  bucket_set-eq c.source d.source c.source d.source (ap length a.source) a.source,
  bucket_set-eq c.dest d.dest c.source d.source a.dest a.source,
)

Alike-refl : (c : Collected) → Alike c c
Alike-refl c = record { global = refl; ip = refl; source = refl; dest = refl }

module _ (atoi : String → Option ℤ) (parse_duration : String → Option ℤ) where
  collect-Alike :
      (nodes : List Node) (c c' d d' : Collected)
      → Alike c c'
      → collect atoi parse_duration c nodes ≡ ready d
      → collect atoi parse_duration c' nodes ≡ ready d'
      → Alike d d'
  unfolding collect
  collect-Alike [] c c' d d' a h h' = ground arith
  collect-Alike (n ∷ nodes) c c' d d' a h h' =
      let (k, ek, hk) = bind_ready (ctor_of atoi parse_duration n.args) _ h in
      let (k', ek', hk') = bind_ready (ctor_of atoi parse_duration n.args) _ h' in
      let same : k' ≡ k = cc (ek, ek') in
      let (e, s, t) = bind_ready (add_scope c n.name k) _ hk in
      let (e', s', t') = bind_ready (add_scope c' n.name k') _ hk' in
      collect-Alike nodes e e' d d'
        (add_scope-Alike c c' e e' n.name k a s
          (subst (λ x. add_scope c' n.name x ≡ ready e') same s'))
        t t'

  collect-destination-Alike :
      (pre post : List Node) (args args' : List String) (c d d' : Collected)
      → collect atoi parse_duration c (pre ++ destination args ∷ post) ≡ ready d
      → collect atoi parse_duration c (pre ++ destination args' ∷ post) ≡ ready d'
      → Alike d d'
  unfolding collect
  collect-destination-Alike [] post args args' c d d' h h' =
      let (k, _, hk) = bind_ready (ctor_of atoi parse_duration args) _ h in
      let (k', _, hk') = bind_ready (ctor_of atoi parse_duration args') _ h' in
      let (e, s, t) =
        bind_ready (add_scope c "destination" k) (λ x. collect atoi parse_duration x post) hk in
      let (e', s', t') =
        bind_ready (add_scope c "destination" k') (λ x. collect atoi parse_duration x post) hk' in
      collect-Alike post e e' d d' (add_dest-Alike c c e e' k k' (Alike-refl c) s s') t t'
  collect-destination-Alike (n ∷ pre) post args args' c d d' h h' =
      let (k, ek, hk) = bind_ready (ctor_of atoi parse_duration n.args) _ h in
      let (k', ek', hk') = bind_ready (ctor_of atoi parse_duration n.args) _ h' in
      let (e, s, t) = bind_ready (add_scope c n.name k) _ hk in
      let (e', s', t') = bind_ready (add_scope c n.name k') _ hk' in
      let same : e' ≡ e = cc (ek, ek', s, s') in
      collect-destination-Alike pre post args args' e d d' t (
        subst (λ x. collect atoi parse_duration x (pre ++ destination args' ∷ post) ≡ ready d') same
          t')

  -- Two configurations that `Init` accepts, and that differ only in the arguments of one `destination`
  -- directive, make the same group: the limits that a `destination` directive names are not applied.
  pub init-destination :
      (pre post : List Node) (args args' : List String) (g g' : Group)
      → init atoi parse_duration (pre ++ destination args ∷ post) ≡ ready g
      → init atoi parse_duration (pre ++ destination args' ∷ post) ≡ ready g'
      → g ≡ g'
  unfolding init
  init-destination pre post args args' g g' h h' =
      let (c, e, t) =
        bind_ready (collect atoi parse_duration nothing (pre ++ destination args ∷ post)) _ h in
      let (c', e', t') =
        bind_ready (collect atoi parse_duration nothing (pre ++ destination args' ∷ post)) _ h' in
      let same =
        assemble-Alike c c' (collect-destination-Alike pre post args args' nothing c c' e e') in
      cc (t, t', same)
