-- ===== src/ErrorFormat/Tests.antt =====
-- A code without a text of its own, whose message is not ASCII.
use asnprefix_map.Base.{◌≡◌, refl, false, [], ◌∷◌}
use asnprefix_map.Base.Text.{codes}
use asnprefix_map.ErrorFormat.{
  ErrorCode, system_error, is_ascii_error_text, describe_error_code, format_exception_message,
  Describes, describe_error_code-IsPrintable,
}

abbrev localized : ErrorCode
localized = record {
  is = λ e. false;
  message = 0xd0 ∷ 0xa1 ∷ [];
  category_name = codes "system";
  value_text = codes "10054";
}

formatted : format_exception_message (system_error localized) ≡ codes "system error [system:10054]"
unfolding format_exception_message describe_error_code is_ascii_error_text
formatted = refl

describe_error_code-IsPrintable_example : Describes localized (describe_error_code localized)
describe_error_code-IsPrintable_example = describe_error_code-IsPrintable localized
