-- ===== src/Completion/Paths/Kept.antt =====
-- What is left of the paths of a request.
use python_vscode.Prelude.{
  ◌≡◌, refl, ap, ◌∙◌, Text, true, false, List, [], ◌∷◌, if◌then◌else◌, same, same_iff, arith,
  Bool-cases, inl, inr, ◌⊎◌, All,
}
use python_vscode.Prelude.Texts.{is_in}
use python_vscode.Completion.Paths.{
  current, init_paths, insert_new, add_path, add_paths, Config, get_or, set_request_config,
  process_paths, serve_paths,
}

-- The same on one list.
abbrev pub push : Text → List Text → List Text
push p paths = if same p [] then paths else insert_new p paths

abbrev pub push_all : List Text → List Text → List Text
push_all [] paths = paths
push_all (p ∷ ps) paths = push_all ps (push p paths)

abbrev pub piled : List (Config × Text) → List Text → List Text
piled [] paths = paths
piled ((config, top) ∷ requests) paths =
    piled requests (push top (push_all (get_or config.extra_paths []) paths))

add_path-init_paths :
    (p : Text) (paths : List Text) → add_path p (init_paths paths) ≡ init_paths (push p paths)
unfolding add_path init_paths
add_path-init_paths p paths = elim (Bool-cases (same p [])) [ inl e ↦ rw e | inr e ↦ rw e ]

add_paths-init_paths :
    (ps paths : List Text) → add_paths ps (init_paths paths) ≡ init_paths (push_all ps paths)
unfolding add_paths
add_paths-init_paths [] paths = refl
add_paths-init_paths (p ∷ ps) paths =
    ap (add_paths ps) (add_path-init_paths p paths) ∙ add_paths-init_paths ps (push p paths)

process_paths-init_paths :
    (config : Config) (top : Text) (paths : List Text)
    → process_paths config top (init_paths paths)
      ≡ init_paths (push top (push_all (get_or config.extra_paths []) paths))
unfolding process_paths set_request_config init_paths
process_paths-init_paths config top paths =
    ap (add_path top) (add_paths-init_paths (get_or config.extra_paths []) paths)
    ∙ add_path-init_paths top _

serve_paths-init_paths :
    (requests : List (Config × Text)) (paths : List Text)
    → serve_paths requests (init_paths paths) ≡ init_paths (piled requests paths)
unfolding serve_paths
serve_paths-init_paths [] paths = refl
serve_paths-init_paths ((config, top) ∷ requests) paths =
    ap (serve_paths requests) (process_paths-init_paths config top paths)
    ∙ serve_paths-init_paths requests _

-- Of a list that only grows in front
is_in-push : (q p : Text) (paths : List Text) → is_in q paths ≡ true → is_in q (push p paths) ≡ true
is_in-push q p paths h = ground (arith, same_iff p q)

is_in-push_self : (p : Text) (paths : List Text) → same p [] ≡ false → is_in p (push p paths) ≡ true
is_in-push_self p paths h = ground (arith, same_iff p p)

is_in-push_all :
    (q : Text) (ps paths : List Text) → is_in q paths ≡ true → is_in q (push_all ps paths) ≡ true
is_in-push_all q [] paths h = h
is_in-push_all q (p ∷ ps) paths h = is_in-push_all q ps (push p paths) (is_in-push q p paths h)

is_in-piled :
    (q : Text) (requests : List (Config × Text)) (paths : List Text)
    → is_in q paths ≡ true
    → is_in q (piled requests paths) ≡ true
is_in-piled q [] paths h = h
is_in-piled q ((config, top) ∷ requests) paths h =
    is_in-piled q requests _
      (is_in-push q top _ (is_in-push_all q (get_or config.extra_paths []) paths h))

-- A path is empty or in the list.
abbrev pub IsKept : List Text → Text → Type 0
IsKept paths p = (same p [] ≡ true) ⊎ (is_in p paths ≡ true)

-- The paths of a configuration, and the top level module
abbrev pub AreKept : List Text → Config × Text → Type 0
AreKept paths (config, top) = All (IsKept paths) (get_or config.extra_paths []) × IsKept paths top

push-IsKept : (p : Text) (paths : List Text) → IsKept (push p paths) p
push-IsKept p paths = elim (Bool-cases (same p [])) [
  | inl e ↦ inl e
  | inr n ↦ inr (is_in-push_self p paths n)
]

-- What is kept in a list stays kept in one that holds all of it.
IsKept-mono :
    (p : Text) (paths more : List Text)
    → (is_in p paths ≡ true → is_in p more ≡ true)
    → IsKept paths p
    → IsKept more p
IsKept-mono p paths more h (inl e) = inl e
IsKept-mono p paths more h (inr i) = inr (h i)

push_all-AreKept :
    (ps paths more : List Text)
    → ((q : Text) → is_in q (push_all ps paths) ≡ true → is_in q more ≡ true)
    → All (IsKept more) ps
push_all-AreKept [] paths more h = tt
push_all-AreKept (p ∷ ps) paths more h = (
  IsKept-mono p (push p paths) more (λ i. h p (is_in-push_all p ps (push p paths) i))
      (push-IsKept p paths),
  push_all-AreKept ps (push p paths) more h,
)

piled-AreKept :
    (requests : List (Config × Text)) (paths : List Text)
    → All (AreKept (piled requests paths)) requests
piled-AreKept [] paths = tt
piled-AreKept ((config, top) ∷ requests) paths =
    let extra : List Text = get_or config.extra_paths [] in
    let after : List Text = push top (push_all extra paths) in
    (
      (
        push_all-AreKept extra paths (piled requests after)
            (λ q i. is_in-piled q requests after (is_in-push q top (push_all extra paths) i)),
        IsKept-mono top after (piled requests after) (is_in-piled top requests after)
            (push-IsKept top (push_all extra paths)),
      ),
      piled-AreKept requests after,
    )

-- Whatever requests a process has served, every path that one of them gave and that is not empty, and
-- every path that the process started with, is still in `sys.path`: the configuration of a request does
-- not restore the list, since the default list is the list that is changed.
pub serve_paths-keeps :
    (requests : List (Config × Text)) (paths : List Text) (p : Text)
    → All (AreKept (current (serve_paths requests (init_paths paths)))) requests
      × ((is_in p paths ≡ false)
          ⊎ (is_in p (current (serve_paths requests (init_paths paths))) ≡ true))
serve_paths-keeps requests paths p =
    rw (serve_paths-init_paths requests paths)
      (unfold init_paths in (piled-AreKept requests paths, started))
  where
    started : (is_in p paths ≡ false) ⊎ (is_in p (piled requests paths) ≡ true)
    started = elim (Bool-cases (is_in p paths)) [
      | inl i ↦ inr (is_in-piled p requests paths i)
      | inr n ↦ inl n
    ]
