-- ===== src/Settings/Args.antt =====
-- The command that is run stands in the arguments of `expand_command_args`.
use remote_executor.Base.{
  ◌-◌, ◌≡◌, ◌⊎◌, refl, sym, ap, inl, inr, true, false, List, [], ◌∷◌, ◌++◌, map, append-nil, arith,
  Bool-cases, length,
}
use remote_executor.Text.{Text, is_empty, starts_with}
use remote_executor.Text.Replace.{contains, replace_from, replace}
use remote_executor.Settings.{command_placeholder}
use remote_executor.Settings.Shell.{any, expand_command_args}

-- `part` stands in `s`
abbrev pub Within : Text → Text → Type 0
Within part s = (before : Text) × (after : Text) × (s ≡ before ++ (part ++ after))

-- `part` stands in one of the arguments
abbrev pub Carried : Text → List Text → Type 0
Carried part [] = ⊥
Carried part (arg ∷ args) = Within part arg ⊎ Carried part args

Within-replace_from :
    (pat new s : Text)
    → is_empty pat ≡ false
    → contains pat s ≡ true
    → Within new (replace_from pat new 0 s)
unfolding replace_from contains
Within-replace_from pat new [] full h = absurd (ground arith)
Within-replace_from pat new (c ∷ s) full h = elim (Bool-cases (starts_with pat (c ∷ s))) [
  | inl here ↦ rw (replace_from, here) ([], replace_from pat new (length pat - 1) s, refl)
  | inr there ↦
      let later : contains pat s ≡ true = rw (there) at h in
      let (before, after, e) = Within-replace_from pat new s full later in
      rw (replace_from, there) (c ∷ before, after, ap (λ t. c ∷ t) e)
]

Carried-map :
    (pat new : Text) (args : List Text)
    → is_empty pat ≡ false
    → any (contains pat) args ≡ true
    → Carried new (map (replace pat new) args)
unfolding replace
Carried-map pat new [] full h = cc
Carried-map pat new (arg ∷ args) full h = elim (Bool-cases (contains pat arg)) [
  | inl here ↦ inl (Within-replace_from pat new arg full here)
  | inr there ↦ inr (Carried-map pat new args full (rw there at h))
]

Carried-append : (command : Text) (args : List Text) → Carried command (args ++ (command ∷ []))
Carried-append command [] = inl ([], [], sym (append-nil command))
Carried-append command (arg ∷ args) = inr (Carried-append command args)

-- Whatever a profile's arguments are, with the placeholder or without, the command that the caller
-- gave stands whole in one of the arguments that the shell is started with.
pub expand_command_args-Carried :
    (args : List Text) (command : Text) → Carried command (expand_command_args args command)
unfolding expand_command_args
expand_command_args-Carried args command =
    elim (Bool-cases (any (contains command_placeholder) args)) [
      | inl e ↦ rw e (Carried-map command_placeholder command args refl e)
      | inr e ↦ rw e (Carried-append command args)
    ]
