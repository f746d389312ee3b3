-- ===== src/Util/Tests.antt =====
-- Escapes of some texts.
use did_vc.Base.{◌≡◌, codes, arith, some}
use did_vc.Util.Fuel.{parse_semicolon_kv-rounds}
use did_vc.Util.{semicolon_loop, parse_semicolon_kv}
use did_vc.Util.{url_encode}
use did_vc.Util.Escape.{percent_decode, percent_decode-url_encode}

percent_decode-url_encode_example : percent_decode (url_encode (codes "a b")) ≡ codes "a b"
percent_decode-url_encode_example =
    percent_decode-url_encode (codes "a b") (omega arith, (omega arith, (omega arith, tt)))

parse_semicolon_kv-rounds_example :
    semicolon_loop 9 (codes "a=1;b=2") ≡ some (parse_semicolon_kv (codes "a=1;b=2"))
parse_semicolon_kv-rounds_example = parse_semicolon_kv-rounds 9 (codes "a=1;b=2") (omega arith)
