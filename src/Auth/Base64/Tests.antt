-- ===== src/Auth/Base64/Tests.antt =====
-- Runs of base64 and base64url.
use hse_project_2026_chronos.Base.{◌≡◌, refl, some, codes, All, ◌%◌, length, arith}
use hse_project_2026_chronos.Auth.Base64.Alphabet.{IsByte}
use hse_project_2026_chronos.Auth.Base64.RoundTrip.{base64_decode-encode}
use hse_project_2026_chronos.Auth.Base64.Padding.{pad_loop_ends}
use hse_project_2026_chronos.Auth.Base64.Url.{base64url_decode-encode}
use hse_project_2026_chronos.Auth.Base64.{
  alphabet_char, base64_encode, base64url_encode, base64url_decode, lut, sextet, decode_groups,
  group_bytes, base64_decode, pad_loop,
}

hello_bytes : All IsByte (codes "Hello")
hello_bytes = (omega arith, (omega arith, (omega arith, (omega arith, (omega arith, tt)))))

encode_run : base64_encode (codes "Hello") ≡ codes "SGVsbG8="
unfolding base64_encode alphabet_char
encode_run = refl

decode_run : base64url_decode (codes "SGVsbG8") ≡ some (codes "Hello")
unfolding base64url_decode base64_decode decode_groups lut sextet group_bytes
decode_run = refl

base64_decode-encode_example : base64_decode (base64_encode (codes "Hello")) ≡ some (codes "Hello")
base64_decode-encode_example = base64_decode-encode (codes "Hello") hello_bytes refl

base64url_decode-encode_example :
    base64url_decode (base64url_encode (codes "Hello")) ≡ some (codes "Hello")
base64url_decode-encode_example = base64url_decode-encode (codes "Hello") hello_bytes refl

pad_loop_ends_example :
    (length (pad_loop 5 (codes "SGVsbG8")) % 4 ≡ 0)
    × (pad_loop 5 (codes "SGVsbG8") ≡ pad_loop 3 (codes "SGVsbG8"))
pad_loop_ends_example = pad_loop_ends 5 (codes "SGVsbG8") (omega arith)
