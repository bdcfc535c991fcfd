-- ===== src/Gateway/Texts.antt =====
-- The texts of the short messages that smsbbschildprotocol.h sends to phones, as the bytes of the
-- source file, and the `snprintf` calls that build them. The buffers hold 100 bytes.
pub mod Lengths
use aka_smsd.Common.{ℕ, List, [], ◌∷◌, ◌++◌, take}
use aka_smsd.Common.Int.{ℤ}
use aka_smsd.Common.Decimal.{print_int, print_int_02, quot_int, rem_int}

-- "your registration code is"
abbrev pub code_prefix : List ℕ
code_prefix =
    230 ∷ 130 ∷ 168 ∷ 231 ∷ 154 ∷ 132 ∷ 230 ∷ 179 ∷ 168 ∷ 229 ∷ 134 ∷ 140 ∷ 231 ∷ 160 ∷ 129 ∷ 230
    ∷ 152 ∷ 175 ∷ 239 ∷ 188 ∷ 154 ∷ []

-- "your phone and the id"
abbrev pub bound_prefix : List ℕ
bound_prefix =
    230 ∷ 130 ∷ 168 ∷ 231 ∷ 154 ∷ 132 ∷ 230 ∷ 137 ∷ 139 ∷ 230 ∷ 156 ∷ 186 ∷ 229 ∷ 143 ∷ 183 ∷ 228
    ∷ 184 ∷ 142 ∷ 105 ∷ 100 ∷ 58 ∷ []

-- "have been bound"
abbrev pub bound_suffix : List ℕ
bound_suffix = 231 ∷ 187 ∷ 145 ∷ 229 ∷ 174 ∷ 154 ∷ 230 ∷ 136 ∷ 144 ∷ 229 ∷ 138 ∷ 159 ∷ 33 ∷ []

-- "are already bound, please do not bind them again"
abbrev pub already_suffix : List ℕ
already_suffix =
    229 ∷ 183 ∷ 178 ∷ 229 ∷ 164 ∷ 132 ∷ 228 ∷ 186 ∷ 142 ∷ 231 ∷ 187 ∷ 145 ∷ 229 ∷ 174 ∷ 154 ∷ 231
    ∷ 138 ∷ 182 ∷ 230 ∷ 128 ∷ 129 ∷ 239 ∷ 188 ∷ 140 ∷ 232 ∷ 175 ∷ 183 ∷ 228 ∷ 184 ∷ 141 ∷ 232 ∷ 166
    ∷ 129 ∷ 233 ∷ 135 ∷ 141 ∷ 229 ∷ 164 ∷ 141 ∷ 231 ∷ 187 ∷ 145 ∷ 229 ∷ 174 ∷ 154 ∷ 46 ∷ []

-- "have been unbound"
abbrev pub unbound_suffix : List ℕ
unbound_suffix =
    229 ∷ 183 ∷ 178 ∷ 230 ∷ 136 ∷ 144 ∷ 229 ∷ 138 ∷ 159 ∷ 232 ∷ 167 ∷ 163 ∷ 233 ∷ 153 ∷ 164 ∷ 231
    ∷ 187 ∷ 145 ∷ 229 ∷ 174 ∷ 154 ∷ 46 ∷ []

-- "are not bound"
abbrev pub not_bound_suffix : List ℕ
not_bound_suffix =
    229 ∷ 185 ∷ 182 ∷ 230 ∷ 178 ∷ 161 ∷ 230 ∷ 156 ∷ 137 ∷ 231 ∷ 187 ∷ 145 ∷ 229 ∷ 174 ∷ 154 ∷ 46
    ∷ []

-- "the id that you entered"
abbrev pub no_id_prefix : List ℕ
no_id_prefix =
    230 ∷ 130 ∷ 168 ∷ 232 ∷ 190 ∷ 147 ∷ 229 ∷ 133 ∷ 165 ∷ 231 ∷ 154 ∷ 132 ∷ 105 ∷ 100 ∷ 58 ∷ 32 ∷ []

-- "does not exist"
abbrev pub no_id_suffix : List ℕ
no_id_suffix = 32 ∷ 228 ∷ 184 ∷ 141 ∷ 229 ∷ 173 ∷ 152 ∷ 229 ∷ 156 ∷ 168 ∷ 33 ∷ []

-- "the phone that you use is not the one that you set on the BBS"
abbrev pub other_mobile : List ℕ
other_mobile =
    230 ∷ 130 ∷ 168 ∷ 228 ∷ 189 ∷ 191 ∷ 231 ∷ 148 ∷ 168 ∷ 231 ∷ 154 ∷ 132 ∷ 230 ∷ 137 ∷ 139 ∷ 230
    ∷ 156 ∷ 186 ∷ 228 ∷ 184 ∷ 142 ∷ 230 ∷ 130 ∷ 168 ∷ 229 ∷ 156 ∷ 168 ∷ 98 ∷ 98 ∷ 115 ∷ 228 ∷ 184
    ∷ 138 ∷ 232 ∷ 174 ∷ 190 ∷ 229 ∷ 174 ∷ 154 ∷ 231 ∷ 154 ∷ 132 ∷ 230 ∷ 137 ∷ 139 ∷ 230 ∷ 156 ∷ 186
    ∷ 229 ∷ 143 ∷ 183 ∷ 228 ∷ 184 ∷ 141 ∷ 228 ∷ 184 ∷ 128 ∷ 232 ∷ 135 ∷ 180 ∷ 33 ∷ []

-- "your daily limit is set to"
abbrev pub limit_set_prefix : List ℕ
limit_set_prefix =
    230 ∷ 130 ∷ 168 ∷ 229 ∷ 183 ∷ 178 ∷ 230 ∷ 136 ∷ 144 ∷ 229 ∷ 138 ∷ 159 ∷ 232 ∷ 174 ∷ 190 ∷ 231
    ∷ 189 ∷ 174 ∷ 98 ∷ 98 ∷ 115 ∷ 230 ∷ 175 ∷ 143 ∷ 230 ∷ 151 ∷ 165 ∷ 231 ∷ 159 ∷ 173 ∷ 228 ∷ 191
    ∷ 161 ∷ 229 ∷ 143 ∷ 145 ∷ 233 ∷ 128 ∷ 129 ∷ 233 ∷ 153 ∷ 144 ∷ 233 ∷ 162 ∷ 157 ∷ 228 ∷ 184 ∷ 186
    ∷ 32 ∷ []

-- "yuan"
abbrev pub yuan_suffix : List ℕ
yuan_suffix = 32 ∷ 229 ∷ 133 ∷ 131 ∷ []

-- "today's total is set to zero"
abbrev pub zeroed : List ℕ
zeroed =
    230 ∷ 130 ∷ 168 ∷ 229 ∷ 183 ∷ 178 ∷ 230 ∷ 136 ∷ 144 ∷ 229 ∷ 138 ∷ 159 ∷ 230 ∷ 184 ∷ 133 ∷ 233
    ∷ 155 ∷ 182 ∷ 230 ∷ 156 ∷ 172 ∷ 230 ∷ 151 ∷ 165 ∷ 98 ∷ 98 ∷ 115 ∷ 231 ∷ 159 ∷ 173 ∷ 228 ∷ 191
    ∷ 161 ∷ 231 ∷ 180 ∷ 175 ∷ 231 ∷ 167 ∷ 175 ∷ 229 ∷ 143 ∷ 145 ∷ 233 ∷ 128 ∷ 129 ∷ 233 ∷ 135 ∷ 145
    ∷ 233 ∷ 162 ∷ 157 ∷ []

-- "your daily limit is"
abbrev pub limit_prefix : List ℕ
limit_prefix =
    230 ∷ 130 ∷ 168 ∷ 229 ∷ 189 ∷ 147 ∷ 229 ∷ 137 ∷ 141 ∷ 231 ∷ 154 ∷ 132 ∷ 98 ∷ 98 ∷ 115 ∷ 230
    ∷ 151 ∷ 165 ∷ 231 ∷ 159 ∷ 173 ∷ 228 ∷ 191 ∷ 161 ∷ 229 ∷ 143 ∷ 145 ∷ 233 ∷ 128 ∷ 129 ∷ 233 ∷ 153
    ∷ 144 ∷ 233 ∷ 162 ∷ 157 ∷ 228 ∷ 184 ∷ 186 ∷ 32 ∷ []

-- "the total of your messages of today is"
abbrev pub total_prefix : List ℕ
total_prefix =
    230 ∷ 130 ∷ 168 ∷ 230 ∷ 156 ∷ 172 ∷ 230 ∷ 151 ∷ 165 ∷ 229 ∷ 156 ∷ 168 ∷ 98 ∷ 98 ∷ 115 ∷ 228
    ∷ 184 ∷ 138 ∷ 229 ∷ 183 ∷ 178 ∷ 230 ∷ 148 ∷ 182 ∷ 229 ∷ 143 ∷ 145 ∷ 231 ∷ 159 ∷ 173 ∷ 228 ∷ 191
    ∷ 161 ∷ 229 ∷ 133 ∷ 177 ∷ 32 ∷ []

-- "the command that you sent is wrong"
abbrev pub bad_command : List ℕ
bad_command =
    230 ∷ 130 ∷ 168 ∷ 229 ∷ 143 ∷ 145 ∷ 233 ∷ 128 ∷ 129 ∷ 231 ∷ 154 ∷ 132 ∷ 229 ∷ 145 ∷ 189 ∷ 228
    ∷ 187 ∷ 164 ∷ 231 ∷ 159 ∷ 173 ∷ 228 ∷ 191 ∷ 161 ∷ 229 ∷ 134 ∷ 133 ∷ 229 ∷ 174 ∷ 185 ∷ 230 ∷ 136
    ∷ 150 ∷ 230 ∷ 160 ∷ 188 ∷ 229 ∷ 188 ∷ 143 ∷ 230 ∷ 156 ∷ 137 ∷ 233 ∷ 148 ∷ 153 ∷ 227 ∷ 128 ∷ 130
    ∷ []

-- `snprintf(msg, 100, …)` keeps the first 99 bytes.
abbrev pub text_100 : List ℕ → List ℕ
text_100 s = take 99 s

unfoldable pub code_text : List ℕ → List ℕ
code_text code = text_100 (code_prefix ++ code)

unfoldable pub bound_text : List ℕ → List ℕ
bound_text id = text_100 (bound_prefix ++ (id ++ bound_suffix))

unfoldable pub already_bound_text : List ℕ → List ℕ
already_bound_text id = text_100 (bound_prefix ++ (id ++ already_suffix))

unfoldable pub unbound_text : List ℕ → List ℕ
unbound_text id = text_100 (bound_prefix ++ (id ++ unbound_suffix))

unfoldable pub not_bound_text : List ℕ → List ℕ
not_bound_text id = text_100 (bound_prefix ++ (id ++ not_bound_suffix))

unfoldable pub no_id_text : List ℕ → List ℕ
no_id_text id = text_100 (no_id_prefix ++ (id ++ no_id_suffix))

unfoldable pub other_mobile_text : List ℕ
other_mobile_text = text_100 other_mobile

-- `%d.%02d` of `v / 100` and `v % 100`.
unfoldable pub yuan : ℤ → List ℕ
yuan v = print_int (quot_int v 100) ++ (b'.' ∷ (print_int_02 (rem_int v 100) ++ yuan_suffix))

unfoldable pub limit_set_text : ℤ → List ℕ
limit_set_text limit = text_100 (limit_set_prefix ++ yuan limit)

unfoldable pub zeroed_text : List ℕ
zeroed_text = text_100 zeroed

unfoldable pub limit_text : ℤ → List ℕ
limit_text limit = text_100 (limit_prefix ++ yuan limit)

unfoldable pub total_text : ℤ → List ℕ
total_text total = text_100 (total_prefix ++ yuan total)

unfoldable pub bad_command_text : List ℕ
bad_command_text = text_100 bad_command
