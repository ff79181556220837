-- ===== src/Tests/Proto.antt =====
-- The wire format on the bytes of muxtls-proto/test-vectors/v1.json and of the unit tests.
use muxtls.Base.{ℕ, ◌≡◌, refl, arith, true, List, [], ◌∷◌, ◌++◌, ok, err, ◌>>=◌}
use muxtls.Base.{length}
use muxtls.Proto.Utf8.{is_char_boundary}
use muxtls.Proto.Utf8.Truncate.{floor_boundary}
use muxtls.Proto.VarInt
use muxtls.Proto.VarInt.{IsVarInt, unexpected_eof}
use muxtls.Proto.VarInt.Decode.{Decodes, decode_reads}
use muxtls.Proto.VarInt.RoundTrip.{decode-encode_append}
use muxtls.Proto.Frame.{
  Frame, stream, IsFrame, trailing_bytes, unsupported_flags, encode, decode, encoded_len,
  take_flags, take_sized, decode_stream, decode_body, decode_front, take_var_int, fit_u64,
}
use muxtls.Proto.Frame.RoundTrip.{decode-encode, decode-trailing, length-encode}
use muxtls.Proto.Frame.Sound.{decode-IsFrame}

-- "hello" on stream 4, with FIN.
abbrev hello : Frame
hello = stream 4 true (104 ∷ 101 ∷ 108 ∷ 108 ∷ 111 ∷ [])

abbrev hello_bytes : List ℕ
hello_bytes = 0x00 ∷ 0x04 ∷ 0x01 ∷ 0x05 ∷ 104 ∷ 101 ∷ 108 ∷ 108 ∷ 111 ∷ []

encode-hello : encode hello ≡ ok hello_bytes
unfolding encode VarInt.encode VarInt.from_u64
encode-hello = refl

decode-hello : decode hello_bytes ≡ ok hello
unfolding decode decode_front decode_body decode_stream take_flags take_sized take_var_int fit_u64
    VarInt.decode
decode-hello = refl

-- Four bytes: 0x9d7f3e7d is 494878333.
value_four : VarInt.encode 494878333 ≡ 0x9d ∷ 0x7f ∷ 0x3e ∷ 0x7d ∷ []
unfolding VarInt.encode
value_four = refl

reserved_flag : decode (0x00 ∷ 0x00 ∷ 0x02 ∷ 0x00 ∷ []) ≡ err (unsupported_flags 0 2)
unfolding decode decode_front decode_body decode_stream take_flags take_sized take_var_int fit_u64
    VarInt.decode
reserved_flag = refl

decode-encode_append_example :
    VarInt.decode (VarInt.encode 494878333 ++ (7 ∷ [])) ≡ ok (494878333, 7 ∷ [])
decode-encode_append_example = decode-encode_append 494878333 (7 ∷ []) (omega arith)

-- 494878333 in four bytes, and one byte behind them.
abbrev four_bytes : List ℕ
four_bytes = 0x9d ∷ 0x7f ∷ 0x3e ∷ 0x7d ∷ 7 ∷ []

decode_reads_example : Decodes four_bytes (VarInt.decode four_bytes)
decode_reads_example = decode_reads four_bytes (omega arith)

decode-encode_example : (encode hello >>= decode) ≡ ok hello
decode-encode_example = decode-encode hello (omega arith)

decode-trailing_example :
    (encode hello >>= λ front. decode (front ++ (255 ∷ 1 ∷ []))) ≡ err (trailing_bytes 2)
decode-trailing_example = decode-trailing hello 255 (1 ∷ []) (omega arith)

length-encode_example : (encode hello >>= λ bs. ok (length bs)) ≡ encoded_len hello
length-encode_example = length-encode hello (omega arith)

decode-IsFrame_example : IsFrame hello
decode-IsFrame_example = decode-IsFrame hello_bytes hello (omega arith) decode-hello

-- "aé€": the euro sign begins at index 3.
abbrev euro : List ℕ
euro = 0x61 ∷ 0xc3 ∷ 0xa9 ∷ 0xe2 ∷ 0x82 ∷ 0xac ∷ []

floor_euro : floor_boundary euro 5 ≡ 3
unfolding floor_boundary is_char_boundary
floor_euro = refl
