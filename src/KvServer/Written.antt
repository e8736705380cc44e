-- ===== src/KvServer/Written.antt =====
-- The strings that kv_connection.cpp writes are the bytes of a response.
use multicore_programming_la.Common.{
  ℕ, ◌<◌, ◌^◌, ◌≡◌, refl, sym, List, [], ◌∷◌, ◌++◌, append_assoc, arith, length,
}
use multicore_programming_la.HttpParser.{Bytes}
use multicore_programming_la.HttpParser.Spells.{IsLine}
use multicore_programming_la.HttpParser.Responses.{joined, response_bytes}
use multicore_programming_la.HttpParser.Buffered.{HasNoZero}
use multicore_programming_la.HttpClient.Messages.{Message, IsMessage}
use multicore_programming_la.KvServer.{codes, decimal, decimal_digits, found_reply, not_found_reply}
use multicore_programming_la.KvServer.Decimal.{
  decimal-AreDigits, extract_size-decimal, AreDigits-IsLine, AreDigits-HasNoZero,
}

abbrev pub value_lines : Bytes → List Bytes
value_lines text =
    codes "Date: Wed, 28 Oct 2009 15:24:11 GMT"
    ∷ codes "Server: Lab02a"
    ∷ codes "Accept-Ranges: bytes"
    ∷ (codes "Content-Length: " ++ decimal (length text))
    ∷ codes "Content-Type: text/html"
    ∷ []

-- A response whose body is a text.
abbrev pub value_message : Bytes → Message
value_message text = (
  record {
    status_line = codes "HTTP/1.1 200 OK";
    header_remainder = joined (value_lines text);
    body = text;
  },
  value_lines text,
)

pub value_message-IsMessage : (text : Bytes) → length text < 2 ^ 64 → IsMessage (value_message text)
value_message-IsMessage text h = record {
  status = ground arith;
  fields = (
    ground arith,
    (λ e. cc),
    (λ e. cc),
    (
      ground arith,
      (λ e. cc),
      (λ e. cc),
      (
        ground arith,
        (λ e. cc),
        (λ e. cc),
        (length_line, (λ e. cc), (λ e. omega arith), (ground arith, (λ e. cc), (λ e. cc), tt)),
      ),
    ),
  );
  join = refl;
  size = sym (extract_size-decimal 0 (length text) h);
}
  where
    length_line : IsLine (codes "Content-Length: " ++ decimal (length text))
    length_line = ground (arith, AreDigits-IsLine _ (decimal-AreDigits 20 (length text)))

pub found_reply_lem :
    (text : Bytes)
    → joined (found_reply text) ≡ response_bytes (value_message text).0 (value_message text).1 []
found_reply_lem text =
    rw
      (append_assoc (decimal (length text)) (codes "\r\n")
        (codes "Content-Type: text/html\r\n\r\n" ++ (text ++ [])))
      refl

pub not_found_reply_lem :
    joined not_found_reply
    ≡ response_bytes
        (value_message []).0
        (value_message []).1
        (codes "value corresponding to the key not found\r\n")
unfolding decimal_digits
not_found_reply_lem = refl

-- The strings that are written, one behind the other.
abbrev pub AllText : List Bytes → Type 0
AllText [] = Unit
AllText (s ∷ ss) = HasNoZero s × AllText ss

HasNoZero-append : (s t : Bytes) → HasNoZero s → HasNoZero t → HasNoZero (s ++ t)
HasNoZero-append [] t h k = k
HasNoZero-append (c ∷ s) t (ne, h) k = (ne, HasNoZero-append s t h k)

pub decimal-HasNoZero : (n : ℕ) → HasNoZero (decimal n)
decimal-HasNoZero n = AreDigits-HasNoZero (decimal n) (decimal-AreDigits 20 n)

pub found_reply-AllText : (text : Bytes) → HasNoZero text → AllText (found_reply text)
found_reply-AllText text h = (
  ground arith,
  (
    ground arith,
    (
      ground arith,
      (
        ground arith,
        (
          HasNoZero-append (codes "Content-Length: ") _ (ground arith) (
              HasNoZero-append (decimal (length text)) _ (decimal-HasNoZero (length text))
                (ground arith)),
          (ground arith, (ground arith, (h, tt))),
        ),
      ),
    ),
  ),
)
