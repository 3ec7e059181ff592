-- ===== src/JsonStream/Tests.antt =====
-- Lines of JSON in a stream, at concrete inputs.
use smart_gateway.Prelude.{◌+◌, ◌≡◌, arith, [], ◌∷◌, ◌++◌, List, take, drop, take-drop}
use smart_gateway.Prelude.Text.{Text}
use smart_gateway.LineParser.{line_parser_feed}
use smart_gateway.MessageJson.Format.{LineMessage, data_line}
use smart_gateway.MessageJson.Tests.{sample, sample-IsJsonMessage}
use smart_gateway.JsonStream.{HasNoLineEnd, printed_lines, AreDecoded, stream_roundtrip}

abbrev two_messages : List LineMessage
two_messages = data_line sample ∷ data_line sample ∷ []

sample-HasNoLineEnd : HasNoLineEnd (data_line sample)
unfolding HasNoLineEnd
sample-HasNoLineEnd = (omega arith, ((omega arith, omega arith), tt))

abbrev front : Text
front = take 100 (printed_lines two_messages)

abbrev behind : Text
behind = drop 100 (printed_lines two_messages)

stream_roundtrip_example :
    let (m, lines, rest) = line_parser_feed front 1024 in
    let (n, more, last) = line_parser_feed (rest ++ behind) 1024 in
    (m + n ≡ 2) × (last ≡ []) × AreDecoded two_messages (lines ++ more)
stream_roundtrip_example =
    stream_roundtrip two_messages front behind 1024 (omega arith)
      (sample-IsJsonMessage 7 (omega arith), (sample-IsJsonMessage 7 (omega arith), tt))
      (sample-HasNoLineEnd, (sample-HasNoLineEnd, tt)) (take-drop 100 (printed_lines two_messages))
