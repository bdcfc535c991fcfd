-- ===== src/Gateway/Texts/Lengths.antt =====
-- Every text for a phone fits its buffer.
use aka_smsd.Common.{ℕ, ◌≤◌, arith, List, ◌++◌, Option, none, some, length, length-take}
use aka_smsd.Common.Int.{ℤ}
use aka_smsd.Gateway.Texts.{
  text_100, already_suffix, bound_prefix, bound_suffix, code_prefix, limit_prefix, limit_set_prefix,
  no_id_prefix, no_id_suffix, not_bound_suffix, other_mobile, total_prefix, unbound_suffix, yuan,
  zeroed, code_text, bound_text, already_bound_text, unbound_text, not_bound_text, no_id_text,
  other_mobile_text, limit_set_text, zeroed_text, limit_text, total_text,
}

abbrev pub IsShort : List ℕ → Type 0
IsShort text = length text ≤ 99

abbrev pub IsShortIfAny : Option (List ℕ) → Type 0
IsShortIfAny none = Unit
IsShortIfAny (some text) = IsShort text

text_100-IsShort : (s : List ℕ) → IsShort (text_100 s)
text_100-IsShort s = omega (arith, length-take 99 s)

pub code_text-IsShort : (code : List ℕ) → IsShort (code_text code)
unfolding code_text
code_text-IsShort code = text_100-IsShort (code_prefix ++ code)

pub bound_text-IsShort : (id : List ℕ) → IsShort (bound_text id)
unfolding bound_text
bound_text-IsShort id = text_100-IsShort (bound_prefix ++ (id ++ bound_suffix))

pub already_bound_text-IsShort : (id : List ℕ) → IsShort (already_bound_text id)
unfolding already_bound_text
already_bound_text-IsShort id = text_100-IsShort (bound_prefix ++ (id ++ already_suffix))

pub unbound_text-IsShort : (id : List ℕ) → IsShort (unbound_text id)
unfolding unbound_text
unbound_text-IsShort id = text_100-IsShort (bound_prefix ++ (id ++ unbound_suffix))

pub not_bound_text-IsShort : (id : List ℕ) → IsShort (not_bound_text id)
unfolding not_bound_text
not_bound_text-IsShort id = text_100-IsShort (bound_prefix ++ (id ++ not_bound_suffix))

pub no_id_text-IsShort : (id : List ℕ) → IsShort (no_id_text id)
unfolding no_id_text
no_id_text-IsShort id = text_100-IsShort (no_id_prefix ++ (id ++ no_id_suffix))

pub other_mobile_text-IsShort : IsShort other_mobile_text
unfolding other_mobile_text
other_mobile_text-IsShort = text_100-IsShort other_mobile

pub limit_set_text-IsShort : (limit : ℤ) → IsShort (limit_set_text limit)
unfolding limit_set_text
limit_set_text-IsShort limit = text_100-IsShort (limit_set_prefix ++ yuan limit)

pub zeroed_text-IsShort : IsShort zeroed_text
unfolding zeroed_text
zeroed_text-IsShort = text_100-IsShort zeroed

pub limit_text-IsShort : (limit : ℤ) → IsShort (limit_text limit)
unfolding limit_text
limit_text-IsShort limit = text_100-IsShort (limit_prefix ++ yuan limit)

pub total_text-IsShort : (total : ℤ) → IsShort (total_text total)
unfolding total_text
total_text-IsShort total = text_100-IsShort (total_prefix ++ yuan total)
