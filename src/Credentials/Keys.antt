-- ===== src/Credentials/Keys.antt =====
-- The public keys of src/edhoc/credentials/cred_pub_data.c and the private keys of cred_cli.c and
-- cred_srv.c, bytes as numbers.
use tfg_edhoc.Base.{ℕ, List, [], ◌∷◌}

abbrev pub cli_suite_2_public_key : List ℕ
cli_suite_2_public_key =
    4 ∷ 141 ∷ 38 ∷ 129 ∷ 186 ∷ 199 ∷ 59 ∷ 165 ∷ 207 ∷ 104 ∷ 216 ∷ 202 ∷ 248 ∷ 30 ∷ 65 ∷ 254 ∷ 34
    ∷ 175 ∷ 166 ∷ 94 ∷ 105 ∷ 49 ∷ 53 ∷ 132 ∷ 146 ∷ 218 ∷ 197 ∷ 133 ∷ 112 ∷ 217 ∷ 253 ∷ 76 ∷ 229 ∷ 26
    ∷ 204 ∷ 195 ∷ 103 ∷ 19 ∷ 198 ∷ 13 ∷ 33 ∷ 29 ∷ 203 ∷ 67 ∷ 223 ∷ 81 ∷ 37 ∷ 239 ∷ 112 ∷ 180 ∷ 19
    ∷ 188 ∷ 58 ∷ 44 ∷ 138 ∷ 207 ∷ 185 ∷ 174 ∷ 181 ∷ 58 ∷ 228 ∷ 129 ∷ 57 ∷ 86 ∷ 113 ∷ []

abbrev pub srv_suite_2_public_key : List ℕ
srv_suite_2_public_key =
    4 ∷ 120 ∷ 40 ∷ 221 ∷ 73 ∷ 41 ∷ 200 ∷ 144 ∷ 132 ∷ 54 ∷ 166 ∷ 175 ∷ 235 ∷ 148 ∷ 159 ∷ 160 ∷ 148
    ∷ 175 ∷ 205 ∷ 199 ∷ 65 ∷ 159 ∷ 81 ∷ 157 ∷ 127 ∷ 129 ∷ 91 ∷ 56 ∷ 32 ∷ 45 ∷ 167 ∷ 135 ∷ 37 ∷ 132
    ∷ 117 ∷ 101 ∷ 66 ∷ 3 ∷ 64 ∷ 107 ∷ 125 ∷ 6 ∷ 194 ∷ 251 ∷ 236 ∷ 49 ∷ 159 ∷ 171 ∷ 149 ∷ 59 ∷ 135
    ∷ 235 ∷ 226 ∷ 206 ∷ 219 ∷ 199 ∷ 226 ∷ 147 ∷ 89 ∷ 73 ∷ 41 ∷ 98 ∷ 36 ∷ 77 ∷ 50 ∷ []

abbrev pub cli_suite_0_public_key : List ℕ
cli_suite_0_public_key =
    238 ∷ 247 ∷ 82 ∷ 46 ∷ 41 ∷ 219 ∷ 9 ∷ 60 ∷ 116 ∷ 193 ∷ 179 ∷ 101 ∷ 87 ∷ 245 ∷ 32 ∷ 152 ∷ 138 ∷ 24
    ∷ 200 ∷ 97 ∷ 206 ∷ 228 ∷ 172 ∷ 102 ∷ 247 ∷ 132 ∷ 223 ∷ 250 ∷ 5 ∷ 235 ∷ 160 ∷ 152 ∷ []

abbrev pub srv_suite_0_public_key : List ℕ
srv_suite_0_public_key =
    76 ∷ 142 ∷ 28 ∷ 198 ∷ 81 ∷ 233 ∷ 65 ∷ 45 ∷ 115 ∷ 116 ∷ 140 ∷ 2 ∷ 14 ∷ 192 ∷ 57 ∷ 15 ∷ 213 ∷ 189
    ∷ 134 ∷ 80 ∷ 141 ∷ 52 ∷ 224 ∷ 115 ∷ 185 ∷ 185 ∷ 193 ∷ 54 ∷ 90 ∷ 178 ∷ 181 ∷ 244 ∷ []

abbrev pub cli_suite_2_private_key : List ℕ
cli_suite_2_private_key =
    151 ∷ 69 ∷ 108 ∷ 54 ∷ 144 ∷ 137 ∷ 14 ∷ 192 ∷ 165 ∷ 6 ∷ 1 ∷ 105 ∷ 248 ∷ 192 ∷ 177 ∷ 128 ∷ 248
    ∷ 227 ∷ 216 ∷ 18 ∷ 63 ∷ 247 ∷ 208 ∷ 146 ∷ 63 ∷ 52 ∷ 119 ∷ 182 ∷ 154 ∷ 234 ∷ 33 ∷ 15 ∷ []

abbrev pub cli_suite_0_private_key : List ℕ
cli_suite_0_private_key =
    57 ∷ 131 ∷ 12 ∷ 74 ∷ 90 ∷ 53 ∷ 35 ∷ 246 ∷ 249 ∷ 166 ∷ 34 ∷ 199 ∷ 133 ∷ 10 ∷ 57 ∷ 135 ∷ 94 ∷ 143
    ∷ 28 ∷ 30 ∷ 87 ∷ 233 ∷ 21 ∷ 119 ∷ 185 ∷ 132 ∷ 54 ∷ 200 ∷ 148 ∷ 234 ∷ 71 ∷ 197 ∷ 238 ∷ 247 ∷ 82
    ∷ 46 ∷ 41 ∷ 219 ∷ 9 ∷ 60 ∷ 116 ∷ 193 ∷ 179 ∷ 101 ∷ 87 ∷ 245 ∷ 32 ∷ 152 ∷ 138 ∷ 24 ∷ 200 ∷ 97
    ∷ 206 ∷ 228 ∷ 172 ∷ 102 ∷ 247 ∷ 132 ∷ 223 ∷ 250 ∷ 5 ∷ 235 ∷ 160 ∷ 152 ∷ []

abbrev pub srv_suite_2_private_key : List ℕ
srv_suite_2_private_key =
    188 ∷ 252 ∷ 8 ∷ 36 ∷ 121 ∷ 161 ∷ 144 ∷ 152 ∷ 244 ∷ 212 ∷ 154 ∷ 245 ∷ 11 ∷ 190 ∷ 18 ∷ 146 ∷ 189
    ∷ 218 ∷ 26 ∷ 138 ∷ 146 ∷ 177 ∷ 205 ∷ 117 ∷ 255 ∷ 66 ∷ 13 ∷ 114 ∷ 15 ∷ 193 ∷ 148 ∷ 255 ∷ []

abbrev pub srv_suite_0_private_key : List ℕ
srv_suite_0_private_key =
    16 ∷ 20 ∷ 154 ∷ 0 ∷ 129 ∷ 229 ∷ 82 ∷ 35 ∷ 232 ∷ 6 ∷ 3 ∷ 103 ∷ 16 ∷ 190 ∷ 154 ∷ 210 ∷ 246 ∷ 43
    ∷ 172 ∷ 194 ∷ 74 ∷ 127 ∷ 205 ∷ 178 ∷ 252 ∷ 109 ∷ 222 ∷ 141 ∷ 218 ∷ 241 ∷ 196 ∷ 80 ∷ 76 ∷ 142
    ∷ 28 ∷ 198 ∷ 81 ∷ 233 ∷ 65 ∷ 45 ∷ 115 ∷ 116 ∷ 140 ∷ 2 ∷ 14 ∷ 192 ∷ 57 ∷ 15 ∷ 213 ∷ 189 ∷ 134
    ∷ 80 ∷ 141 ∷ 52 ∷ 224 ∷ 115 ∷ 185 ∷ 185 ∷ 193 ∷ 54 ∷ 90 ∷ 178 ∷ 181 ∷ 244 ∷ []
