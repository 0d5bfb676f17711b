-- ===== src/Pesangon/Reason/RoundTrip.antt =====
-- The text form of a reason (src/domain/entity/offboarding_reason.rs) and its reading.
use backbone_lifecycle.Prelude.{
  List, [], ◌∷◌, String, Bool, true, ◌&&◌, ◌≡◌, ◌↔◌, refl, ◌∙◌, ap, Option, some, ok, ok_or, arith,
  eq_iff, str_eq,
}
use backbone_lifecycle.Pesangon.Reason.{
  OffboardingReason, resignation, display, reason_arms, match_arm, from_str, is_lower_ascii,
  KeepsLower,
}

display_lower : (r : OffboardingReason) → is_lower_ascii (display r) ≡ true
unfolding display
display_lower resignation = refl
display_lower _ = refl

match_arm-display : (r : OffboardingReason) → match_arm (display r) reason_arms ≡ some r
unfolding display
match_arm-display resignation = refl
match_arm-display _ = refl

-- Every arm's text is the text of its reason.
arms_agree : List (String × OffboardingReason) → Bool
arms_agree [] = true
arms_agree ((t, r) ∷ arms) = str_eq t (display r) && arms_agree arms

reason_arms_agree : arms_agree reason_arms ≡ true
unfolding arms_agree display
reason_arms_agree = refl

match_arm_sound :
    (s : String) (arms : List (String × OffboardingReason)) (r : OffboardingReason)
    → arms_agree arms ≡ true
    → match_arm s arms ≡ some r
    → s ≡ display r
unfolding arms_agree
match_arm_sound s [] r agree e = cc
match_arm_sound s ((t, q) ∷ arms) r agree e =
    ground (arith, eq_iff s t, eq_iff t (display q), match_arm_sound s arms r)

ok_or-inj :
    (o : Option OffboardingReason) (s : String) (r : OffboardingReason)
    → ok_or o s ≡ ok r
    → o ≡ some r
ok_or-inj o s r e = ground arith

module _ (to_lowercase : String → String) where
  -- A text reads as a reason exactly when its small letters spell what `Display` writes for it.
  pub from_str_iff :
      (s : String) (r : OffboardingReason)
      → (from_str to_lowercase s ≡ ok r) ↔ (to_lowercase s ≡ display r)
  unfolding from_str
  from_str_iff s r = (
    λ e. match_arm_sound (to_lowercase s) reason_arms r reason_arms_agree (ok_or-inj _ s r e),
    λ e. ap (λ t. ok_or (match_arm t reason_arms) s) e ∙ ap (λ o. ok_or o s) (match_arm-display r),
  )

  -- Reading back what `Display` writes gives the reason.
  pub from_str-display :
      (r : OffboardingReason) → KeepsLower to_lowercase → from_str to_lowercase (display r) ≡ ok r
  from_str-display r keeps = (from_str_iff (display r) r).1 (keeps (display r) (display_lower r))
