-- ===== src/Protocol.antt =====
-- connection.h: the texts that the server writes.
use memuncached.Libc.{print_decimal}
use memuncached.Prelude.Int.{pos}
use memuncached.Prelude.{ℕ, List, ◌∷◌, ◌++◌, codes, crlf, length}

abbrev pub response_200_ok : List ℕ
response_200_ok = codes "200 OK"

abbrev pub response_400_bad_request : List ℕ
response_400_bad_request = codes "400 BAD REQUEST"

abbrev pub response_404_not_found : List ℕ
response_404_not_found = codes "404 NOT FOUND"

abbrev pub response_409_key_exists : List ℕ
response_409_key_exists = codes "409 KEY EXISTS"

abbrev pub response_500_server_error : List ℕ
response_500_server_error = codes "500 SERVER ERROR"

-- `RESPONSE_WRITE`, with the formatted text.
unfoldable pub response_write : List ℕ → List ℕ → List ℕ
response_write code text =
    code ++ (crlf ++ (print_decimal (pos (length text)) ++ (crlf ++ (text ++ 0 ∷ crlf))))

-- The reply to a getter: the length and the type in the second line, then the payload.
unfoldable pub value_write : ℕ → List ℕ → List ℕ
value_write type payload =
    response_200_ok
    ++ (crlf
        ++ (print_decimal (pos (length payload))
            ++ (b' ' ∷ (print_decimal (pos type) ++ (crlf ++ (payload ++ 0 ∷ crlf))))))
