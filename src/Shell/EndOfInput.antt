-- ===== src/Shell/EndOfInput.antt =====
-- skeleton_smash/smash.cpp: the loop of `main` when there is no more input.
use operating_system_related.Prelude.{
  ℕ, zero, suc, ◌≡◌, refl, ap, ◌∙◌, Bool, true, false, [], ◌∷◌, ◌++◌, if◌then◌else◌,
}
use operating_system_related.Shell.State.{
  prompt, System, Shell, ended, no_fuel, Act, then_act, ◌>>◌,
}
use operating_system_related.Shell.Execute.{exit, smash_round, smash}

if_false : {A : Type 0} (b : Bool) (x y : A) → b ≡ false → (if b then x else y) ≡ y
if_false true x y h = cc
if_false false x y h = refl

module _ {S : Type 0} (system : System S) (quiet : (s : S) → system.arrivals s ≡ ([], s))
    (no_input : (s : S) → system.get_line s ≡ ([], s)) where
  -- A round prints the prompt, and that is all.
  round_lem :
      (depth : ℕ) (s : Shell S)
      → smash_round system depth s
        ≡ ended tt (record s { printed = s.printed ++ prompt s.display_prompt ∷ [] })
  unfolding smash_round
  round_lem depth s = rw (quiet s.system) (rw (no_input s.system) refl)

  -- At the end of the input `getline` reads no character, again and again, and no signal comes: then the
  -- loop of a shell that is not to quit never ends, however many rounds it is given.
  pub smash-never :
      (fuel depth : ℕ) (s : Shell S) → s.quit ≡ false → smash system fuel depth s ≡ no_fuel
  unfolding smash
  smash-never zero depth s h = refl
  smash-never (suc fuel) depth s h =
      ap (λ (r : Act S (Unit {0})). r s)
        (if_false s.quit (exit 0) (smash_round system depth >> smash system fuel depth) h)
      ∙ (ap (λ o. then_act o (λ _. smash system fuel depth)) (round_lem depth s)
          ∙ smash-never fuel depth
              (record s { printed = s.printed ++ prompt s.display_prompt ∷ [] }) h)
