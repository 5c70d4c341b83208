-- ===== src/Metrics/Answer.antt =====
-- What a client of the metrics server reads.
use peregrine_proxy.Base.{
  ℕ, suc, ◌≤◌, ◌<◌, ◌≡◌, refl, ap, ◌∙◌, false, none, some, List, [], ◌∷◌, ◌++◌, arith, ◌==◌,
  if◌then◌else◌, length, length-append, take-append, drop-append, le→leb, starts_with, contains,
  any-append, All, Bool-cases, inl, inr,
}
use mathlib.Core.List.{append_assoc}
use peregrine_proxy.Base.Text.{Bytes, codes, lower}
use peregrine_proxy.Base.Decimal.{decimal, decimal-All, IsDigit, parse_usize-decimal}
use peregrine_proxy.Stream.{Conn}
use peregrine_proxy.Stream.Laws.{read-append, write_all_open}
use peregrine_proxy.Metrics.{ProxyMetrics, format_answer, response, serve, crlf}
use peregrine_proxy.Metrics.Reader.{
  Answer, read_line, read_headers, header_value, content_length, read_body, read_answer,
  read_line-line, add_header,
}

digits_one_line : (bs : Bytes) → All IsDigit bs → contains bs 13 ≡ false
digits_one_line [] h = refl
digits_one_line (b ∷ bs) h = ground (arith, digits_one_line bs h.1)

-- The line that carries the length.
length_line : ℕ → Bytes
length_line n = codes "Content-Length: " ++ decimal n

length_line_whole : (n : ℕ) → contains (length_line n) 13 ≡ false
unfolding length_line
length_line_whole n =
    any-append (λ x. x == 13) (codes "Content-Length: ") (decimal n)
    ∙ digits_one_line (decimal n) (decimal-All n)

-- The body is read by its length, whatever follows.
body_read :
    (status body rest : Bytes) (headers : List Bytes)
    → read_body status headers (body ++ rest) (length body)
      ≡ some (record { status = status; headers = headers; body = body }, rest)
unfolding read_body
body_read status body rest headers =
    rw
      (
        le→leb (length body) (length (body ++ rest)) (omega (arith, length-append body rest)),
        take-append (length body) body rest refl,
        drop-append (length body) body rest refl,
      )
      refl

-- Three lines, an empty one and the rest.
frame : Bytes → Bytes → Bytes → Bytes → Bytes
frame line first second body =
    line ++ (crlf ++ (first ++ (crlf ++ (second ++ (crlf ++ (crlf ++ body))))))

frame-append :
    (line first second body rest : Bytes)
    → frame line first second body ++ rest ≡ frame line first second (body ++ rest)
unfolding frame
frame-append line first second body rest = simp append_assoc

read_headers-line :
    (n c : ℕ) (line rest : Bytes)
    → contains (c ∷ line) 13 ≡ false
    → read_headers (suc n) ((c ∷ line) ++ (crlf ++ rest))
      ≡ add_header (c ∷ line) (read_headers n rest)
unfolding read_headers
read_headers-line n c line rest h = rw (read_line-line (c ∷ line) rest h) refl

read_headers-end : (n : ℕ) (rest : Bytes) → read_headers (suc n) (crlf ++ rest) ≡ some ([], rest)
unfolding read_headers read_line
read_headers-end n rest = refl

-- Two header lines, up to the empty line.
read_headers-two :
    (c d : ℕ) (first second rest : Bytes)
    → contains (c ∷ first) 13 ≡ false
    → contains (d ∷ second) 13 ≡ false
    → read_headers 100 ((c ∷ first) ++ (crlf ++ ((d ∷ second) ++ (crlf ++ (crlf ++ rest)))))
      ≡ some ((c ∷ first) ∷ (d ∷ second) ∷ [], rest)
read_headers-two c d first second rest h k =
    rw
      (
        read_headers-line 99 c first ((d ∷ second) ++ (crlf ++ (crlf ++ rest))) h,
        read_headers-line 98 d second (crlf ++ rest) k,
        read_headers-end 97 rest,
      )
      refl

-- An answer of one line of status and two headers, the second with the right length, is read whole.
read_answer-frame :
    (status first second body rest : Bytes) (c d : ℕ)
    → contains (codes "HTTP/1.1 " ++ status) 13 ≡ false
    → contains (c ∷ first) 13 ≡ false
    → contains (d ∷ second) 13 ≡ false
    → content_length ((c ∷ first) ∷ (d ∷ second) ∷ []) ≡ some (length body)
    → read_answer (frame (codes "HTTP/1.1 " ++ status) (c ∷ first) (d ∷ second) body ++ rest)
      ≡ some
          (record { status = status; headers = (c ∷ first) ∷ (d ∷ second) ∷ []; body = body }, rest)
unfolding read_answer frame
read_answer-frame status first second body rest c d s h k n =
    rw
      (
        frame-append (codes "HTTP/1.1 " ++ status) (c ∷ first) (d ∷ second) body rest,
        read_line-line (codes "HTTP/1.1 " ++ status)
            ((c ∷ first) ++ (crlf ++ ((d ∷ second) ++ (crlf ++ (crlf ++ (body ++ rest)))))) s,
        read_headers-two c d first second (body ++ rest) h k,
        n,
      )
      (body_read status body rest ((c ∷ first) ∷ (d ∷ second) ∷ []))

content_length-lines :
    (content_type : Bytes) (n : ℕ)
    → n < 18446744073709551616
    → content_length ((codes "Content-Type: " ++ content_type) ∷ length_line n ∷ []) ≡ some n
unfolding content_length header_value lower length_line
content_length-lines content_type n h = parse_usize-decimal n h

-- A status without a carriage return and a type make an answer that is read whole.
format_answer_read :
    (status content_type body rest : Bytes)
    → contains status 13 ≡ false
    → contains content_type 13 ≡ false
    → length body < 18446744073709551616
    → read_answer (format_answer status content_type (length body) body ++ rest)
      ≡ some (
        record {
          status = status;
          headers = (codes "Content-Type: " ++ content_type) ∷ length_line (length body) ∷ [];
          body = body;
        },
        rest,
      )
unfolding format_answer frame length_line
format_answer_read status content_type body rest s c h =
    read_answer-frame status _ _ body rest _ _ s c (length_line_whole (length body))
      (content_length-lines content_type (length body) h)

-- An answer of one status, one type and one body.
answer : Bytes → Bytes → Bytes → Answer
unfolding length_line
answer status content_type body = record {
  status = status;
  headers = (codes "Content-Type: " ++ content_type) ∷ length_line (length body) ∷ [];
  body = body;
}

-- The pages of the server.
unfoldable pub page : Bytes → Bytes → Answer
unfolding answer
page metrics_text request =
    if starts_with (codes "GET /metrics") request
    then answer (codes "200 OK") (codes "text/plain; version=0.0.4; charset=utf-8") metrics_text
    else if starts_with (codes "GET /health") request
    then answer (codes "200 OK") (codes "text/plain") (codes "OK")
    else answer (codes "404 Not Found") (codes "text/plain") (codes "Not Found")

-- Whatever the request, a client reads the page that the request asks for, and what follows the
-- answer is left.
response_read :
    (encode : ProxyMetrics → Bytes) (metrics : ProxyMetrics) (request rest : Bytes)
    → length (encode metrics) < 18446744073709551616
    → read_answer (response encode metrics request ++ rest)
      ≡ some (page (encode metrics) request, rest)
unfolding response page
response_read encode metrics request rest h =
    let text = encode metrics in
    elim (Bool-cases (starts_with (codes "GET /metrics") request)) [
      | inl hit ↦ rw hit (
          format_answer_read (codes "200 OK") (codes "text/plain; version=0.0.4; charset=utf-8")
            text rest refl refl h)
      | inr miss ↦ rw miss (elim (Bool-cases (starts_with (codes "GET /health") request)) [
        | inl hit ↦ rw hit (
            format_answer_read (codes "200 OK") (codes "text/plain") (codes "OK") rest refl refl
              (omega arith))
        | inr other ↦ rw other (
            format_answer_read (codes "404 Not Found") (codes "text/plain") (codes "Not Found") rest
              refl refl (omega arith))
      ])
    ]

-- A client that sends a request of 1 to 1024 bytes at once, and takes the answer, is served: the
-- server writes a text that an HTTP client reads as the page that the request asks for, whatever
-- follows the text, and leaves what the client sent later. The text of the metrics is shorter than
-- 2 ^ 64 bytes.
pub serve_lem :
    (encode : ProxyMetrics → Bytes) (metrics : ProxyMetrics) (request later : Bytes)
    (segments : List ℕ) (socket : Conn)
    → length (encode metrics) < 18446744073709551616
    → socket.input ≡ request ++ later
    → socket.segments ≡ length request ∷ segments
    → 0 < length request
    → length request ≤ 1024
    → socket.room ≡ none
    → (text : Bytes) × (serve encode metrics socket
        ≡ record socket { input = later; segments = segments; output = socket.output ++ text })
      × ((rest : Bytes) → read_answer (text ++ rest) ≡ some (page (encode metrics) request, rest))
unfolding serve
serve_lem encode metrics request later segments socket h e k pos fits room =
    let text = response encode metrics request in
    (
      text,
      rw (read-append 1024 request later segments socket e k pos fits) (
          ap (λ r. r.1)
            (write_all_open text (record socket { input = later; segments = segments }) room)),
      λ rest. response_read encode metrics request rest h,
    )
