-- ===== src/LineParser/Tests.antt =====
-- Lines at concrete inputs.
use smart_gateway.Prelude.{◌≡◌, ◌++◌, ◌+◌, refl, arith, [], ◌∷◌, length, map}
use smart_gateway.Prelude.Text.{Text, codes}
use smart_gateway.LineParser.{find_newline, strip_cr, line_parser_feed}
use smart_gateway.LineParser.Split.{split_lines}
use smart_gateway.LineParser.Feeds.{sent, feed-split_lines, line_parser_feed-append, feed-sent}

two_lines : line_parser_feed (codes "ab\r\n\ncd") 1024 ≡ (2, codes "ab" ∷ [] ∷ [], codes "cd")
unfolding line_parser_feed find_newline strip_cr
two_lines = refl

abbrev pieces : Text
pieces = codes "ab\r\n\ncd"

feed-split_lines_example :
    line_parser_feed pieces 1024
    ≡ (length (split_lines pieces).0, map strip_cr (split_lines pieces).0, (split_lines pieces).1)
feed-split_lines_example = feed-split_lines pieces 1024 (omega arith)

line_parser_feed-append_example :
    let (m, lines, rest) = line_parser_feed pieces 1024 in
    let (n, more, last) = line_parser_feed (rest ++ codes "ef\r\ng") 1024 in
    line_parser_feed (pieces ++ codes "ef\r\ng") 1024 ≡ (m + n, lines ++ more, last)
line_parser_feed-append_example =
    line_parser_feed-append pieces (codes "ef\r\ng") 1024 (omega arith)

feed-sent_example :
    line_parser_feed (sent (codes "ab" ∷ codes "c" ∷ []) ++ codes "d") 1024
    ≡ (2, codes "ab" ∷ codes "c" ∷ [], codes "d")
feed-sent_example =
    feed-sent (codes "ab" ∷ codes "c" ∷ []) (codes "d") 1024 (omega arith) (omega arith)
      (omega arith)
