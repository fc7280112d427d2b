-- ===== src/Tests/Prompts.antt =====
-- The examples of the prompts for a proof of concept.
use araratsec_agent.Prelude.{◌≡◌, ◌<◌, ◌≤◌, refl, String, true, none, some, [], ◌∷◌, arith}
use araratsec_agent.Prelude.Texts.{concat}
use araratsec_agent.ProofPrompts.{extract_access_control_operands}
use araratsec_agent.ProofPrompts.Operands.{
  all_hex, chars, printed, extract_access_control_operands-printed,
}

abbrev account : String
account = "abababababababababababababababababababab"

account_hex : all_hex account ≡ true
unfolding all_hex
account_hex = refl

account_long : chars account ≡ 40
unfolding chars
account_long = refl

role_hex : all_hex "0f" ≡ true
unfolding all_hex
role_hex = refl

role_some : 0 < chars "0f"
unfolding chars
role_some = omega arith

role_short : chars "0f" ≤ 64
unfolding chars
role_short = omega arith

extract_access_control_operands-printed_example :
    extract_access_control_operands (printed account "0f" " in test()")
    ≡ some (concat ("0x" ∷ account ∷ []), concat ("0x" ∷ "0f" ∷ []))
extract_access_control_operands-printed_example =
    extract_access_control_operands-printed account "0f" " in test()" account_hex account_long
      role_hex role_some role_short

behind_a_word :
    extract_access_control_operands "no AccessControlUnauthorizedAccount(0x1, 0x2)" ≡ none
unfolding extract_access_control_operands
behind_a_word = refl
