-- ===== src/Paths/Normalize.antt =====
-- `normalize_path` against a stack of names.
use vidga_os.Base.{
  ℕ, zero, suc, ◌+◌, ◌-◌, ◌≤◌, ◌<◌, ◌≡◌, refl, sym, ap, ◌≢◌, inl, inr, true, false, some, List, [],
  ◌∷◌, ◌++◌, append_assoc, arith, ltb, ◌==◌, Bool-cases, if◌then◌else◌, length, get_or, All,
  length-append, get_or-append, All-get_or, Text, IsText, strcmp_eq, strcmp_eq_iff, codes,
}
use vidga_os.Paths.{
  slash, root_path, skip_slash, cut_loop, normalize_step, normalize_loop, normalize_result,
  normalize_path,
}
use vidga_os.Paths.Split.{NoSlash, cut_loop-append}
use vidga_os.Paths.Components.{components, components-nil, components-span, length-span-lt}

-- The steps of the loop, over a list of components.
abbrev pub normalize_all : Text → List Text → Text
normalize_all temp [] = temp
normalize_all temp (w ∷ ws) = normalize_all (normalize_step temp w) ws

-- The loop ends, and takes one step for each component.
pub normalize_loop-components :
    (f : ℕ) (temp path : Text)
    → length path ≤ f
    → normalize_loop f temp path ≡ some (normalize_all temp (components path))
unfolding normalize_loop
normalize_loop-components zero temp [] h = rw components-nil
normalize_loop-components (suc f) temp [] h = rw components-nil
normalize_loop-components zero temp (c ∷ cs) h = absurd (omega arith)
normalize_loop-components (suc f) temp (c ∷ cs) h =
    rw components-span (normalize_loop-components f _ _ (omega (arith, length-span-lt c cs)))

-- A component that is neither empty nor holds a slash.
abbrev pub IsName : Text → Type 0
IsName w = NoSlash w × IsText w × (length w ≢ 0)

-- What a path means: the directories that are open, the innermost first.
abbrev pub pop_name : List Text → List Text
pop_name [] = []
pop_name (w ∷ st) = st

unfoldable pub resolve_step : List Text → Text → List Text
resolve_step st comp =
    if strcmp_eq comp (codes ".")
    then st
    else if strcmp_eq comp (codes "..")
    then pop_name st
    else comp ∷ st

unfoldable pub resolve : List Text → List Text → List Text
resolve st [] = st
resolve st (w ∷ ws) = resolve (resolve_step st w) ws

-- The absolute path of a stack, empty for the root.
unfoldable pub render : List Text → Text
render [] = []
render (w ∷ st) = render st ++ slash ∷ w

-- The same with "/" for the root.
abbrev pub show_path : List Text → Text
show_path [] = root_path
show_path (w ∷ st) = render (w ∷ st)

length-render : (w : Text) (st : List Text) → length w < length (render (w ∷ st))
unfolding render
length-render w st = omega (arith, length-append (render st) (slash ∷ w))

last_of_render :
    (w : Text) (st : List Text)
    → IsName w
    → (get_or (render (w ∷ st)) (length (render (w ∷ st)) - 1) 0 == slash) ≡ false
unfolding render
last_of_render [] st h = absurd (h.2 refl)
last_of_render (c ∷ cs) st h = ground (
  arith,
  length-append (render st) (slash ∷ c ∷ cs),
  get_or-append (render st) (slash ∷ c ∷ cs) (suc (length cs + 1 - 1))
      (length (render st ++ (slash ∷ c ∷ cs)) - 1) 0,
  All-get_or (λ x. x ≢ slash) (c ∷ cs) (length cs + 1 - 1) 0 h.0 (omega arith),
)

cut-render :
    (w : Text) (st : List Text)
    → IsName w
    → cut_loop (length (render (w ∷ st))) (render (w ∷ st)) ≡ render st
unfolding render
cut-render w st h =
    cut_loop-append (length (render st ++ slash ∷ w)) (render st) w h.0
      (omega (arith, length-append (render st) (slash ∷ w)))

render-push : (w : Text) (st : List Text) → (render st ++ root_path) ++ w ≡ render (w ∷ st)
unfolding render
render-push w st = append_assoc (render st) root_path w

-- One round of the loop is one step of the stack.
normalize_step-render :
    (st : List Text) (w : Text)
    → All IsName st
    → normalize_step (render st) w ≡ render (resolve_step st w)
unfolding normalize_step resolve_step
normalize_step-render [] w hs = unfold render in ground arith
normalize_step-render (v ∷ st) w hs =
    let long : ltb 1 (length (render (v ∷ st))) ≡ true = ground (arith, length-render v st) in
    let nonempty : (length (render (v ∷ st)) == 0) ≡ false = ground (arith, length-render v st) in
    elim (Bool-cases (strcmp_eq w (codes "."))) [
      | inl dot ↦ rw dot
      | inr other ↦ elim (Bool-cases (strcmp_eq w (codes ".."))) [
        | inl dots ↦ rw (other, dots, long) (cut-render v st hs.0)
        | inr name ↦ rw (other, name, nonempty, last_of_render v st hs.0) (render-push w (v ∷ st))
      ]
    ]

resolve_step-IsName :
    (st : List Text) (w : Text) → All IsName st → IsName w → All IsName (resolve_step st w)
unfolding resolve_step
resolve_step-IsName [] w hs hw = ground arith
resolve_step-IsName (v ∷ st) w hs hw = ground arith

normalize_all-resolve :
    (st ws : List Text)
    → All IsName st
    → All IsName ws
    → normalize_all (render st) ws ≡ render (resolve st ws)
unfolding resolve
normalize_all-resolve st [] hs hw = refl
normalize_all-resolve st (w ∷ ws) hs hw =
    rw (normalize_step-render st w hs)
      (normalize_all-resolve (resolve_step st w) ws (resolve_step-IsName st w hs hw.0) hw.1)

resolve-IsName : (st ws : List Text) → All IsName st → All IsName ws → All IsName (resolve st ws)
unfolding resolve
resolve-IsName st [] hs hw = hs
resolve-IsName st (w ∷ ws) hs hw =
    resolve-IsName (resolve_step st w) ws (resolve_step-IsName st w hs hw.0) hw.1

normalize_result-render :
    (st : List Text) → normalize_result (some (render st)) ≡ some (show_path st)
normalize_result-render [] = unfold render in refl
normalize_result-render (w ∷ st) = ground (arith, length-render w st)

pub length-skip_slash : (path : Text) → length (skip_slash path) ≤ length path
unfolding skip_slash
length-skip_slash [] = omega arith
length-skip_slash (c ∷ cs) = ground arith

normalize_all_nil : (ws : List Text) → All IsName ws → normalize_all [] ws ≡ render (resolve [] ws)
normalize_all_nil ws h = unfold render in normalize_all-resolve [] ws tt h

root_IsText : IsText root_path
root_IsText = ground arith

root_resolved : show_path (resolve [] (components (skip_slash root_path))) ≡ root_path
unfolding resolve components skip_slash
root_resolved = refl

-- For a path whose components are non-empty, `normalize_path` ends and gives the path of the
-- stack of names that is left when "." is skipped and ".." closes the innermost directory that is
-- open, or does nothing at the root.
pub normalize_path-resolve :
    (path : Text)
    → IsText path
    → All IsName (components (skip_slash path))
    → normalize_path path ≡ some (show_path (resolve [] (components (skip_slash path))))
unfolding normalize_path
normalize_path-resolve path t h = elim (Bool-cases (strcmp_eq path root_path)) [
  | inl e ↦
      rw e (rw ((strcmp_eq_iff path root_path t root_IsText).0 e) (ap some (sym root_resolved)))
  | inr ne ↦ rw ne (
      rw
        (
          normalize_loop-components (length path) [] (skip_slash path) (length-skip_slash path),
          normalize_all_nil (components (skip_slash path)) h,
        )
        (normalize_result-render (resolve [] (components (skip_slash path)))))
]
