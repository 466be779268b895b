-- ===== src/Api/Upload.antt =====
-- `write_upload_in_chunks` of app/api/uploads.py. What the client sends is the list of the results
-- of `file.read`; an empty one, or the end of the list, ends the stream.
use mathlib.Core.List.{append-nil, append_assoc}
use give_exit.Prelude.{
  zero, suc, length-take, ℕ, ◌+◌, ◌-◌, ◌≤◌, ◌≡◌, refl, ap, sym, true, false, Option, none, some,
  List, [], ◌∷◌, ◌++◌, ltb, if◌then◌else◌, arith, Bool-cases, inl, inr, length, take, length-append,
}

abbrev pub upload_header_bytes : ℕ
upload_header_bytes = 16

-- The loop's variables, and what has been written to the file.
pub record Upload : Type 0 where
  pub total : ℕ
  pub header : List ℕ
  pub written : List ℕ

-- The file that is left on disk, if any, and the header that is returned, if no error was raised.
pub record Outcome : Type 0 where
  pub file : Option (List ℕ)
  pub returned : Option (List ℕ)

-- header.extend(chunk[: UPLOAD_HEADER_BYTES - len(header)])
unfoldable pub extend_header : List ℕ → List ℕ → List ℕ
extend_header header chunk =
    if ltb (length header) upload_header_bytes
    then header ++ take (upload_header_bytes - length header) chunk
    else header

unfoldable pub write_loop : ℕ → List (List ℕ) → Upload → Outcome
unfolding extend_header
write_loop max_upload_bytes [] u = record { file = some u.written; returned = some u.header }
write_loop max_upload_bytes ([] ∷ reads) u = record {
  file = some u.written;
  returned = some u.header;
}
write_loop max_upload_bytes ((b ∷ bs) ∷ reads) u =
    let chunk = b ∷ bs in
    let total = u.total + length chunk in
    let rest = write_loop max_upload_bytes reads (record {
      total = total;
      header = extend_header u.header chunk;
      written = u.written ++ chunk;
    }) in
    if ltb max_upload_bytes total then record { file = none; returned = none } else rest

unfoldable pub write_upload_in_chunks : ℕ → List (List ℕ) → Outcome
unfolding write_loop
write_upload_in_chunks max_upload_bytes reads =
    write_loop max_upload_bytes reads (record { total = 0; header = []; written = [] })

-- What the client sent, up to the first empty read.
abbrev sent_bytes : List (List ℕ) → List ℕ
sent_bytes [] = []
sent_bytes ([] ∷ reads) = []
sent_bytes ((b ∷ bs) ∷ reads) = (b ∷ bs) ++ sent_bytes reads

-- The outcome that the upload of `content` should have.
abbrev pub expected : ℕ → List ℕ → Outcome
expected max_upload_bytes content =
    if ltb max_upload_bytes (length content)
    then record { file = none; returned = none }
    else record { file = some content; returned = some (take upload_header_bytes content) }

take-append : (n : ℕ) (xs ys : List ℕ) → take n (xs ++ ys) ≡ take n xs ++ take (n - length xs) ys
take-append zero xs ys = let none_left : 0 - length xs ≡ 0 = omega arith in rw none_left
take-append (suc n) [] ys = let all_left : suc n - 0 ≡ suc n = omega arith in rw all_left
take-append (suc n) (x ∷ xs) ys =
    let less : suc n - suc (length xs) ≡ n - length xs = omega arith in
    rw less (ap (λ (l : List ℕ). x ∷ l) (take-append n xs ys))

extend_header-take :
    (w chunk : List ℕ)
    → extend_header (take upload_header_bytes w) chunk ≡ take upload_header_bytes (w ++ chunk)
unfolding extend_header
extend_header-take w chunk = elim (Bool-cases (ltb (length (take 16 w)) 16)) [
  | inl short ↦
      let same : length (take 16 w) ≡ length w = ground (arith, short, length-take 16 w) in
      rw (short, same) (sym (take-append 16 w chunk))
  | inr full ↦
      let over : 16 - length w ≡ 0 = ground (arith, full, length-take 16 w) in
      rw (full, take-append 16 w chunk, over) (sym (append-nil (take 16 w)))
]

write_loop-end :
    (n : ℕ) (u : Upload)
    → u.total ≡ length u.written
    → u.header ≡ take upload_header_bytes u.written
    → u.total ≤ n
    → ◌≡◌ {A = Outcome}
        (record { file = some u.written; returned = some u.header })
        (expected n (u.written ++ []))
write_loop-end n u t h b =
    let fits : ltb n (length u.written) ≡ false = ground (arith, t, b) in
    rw (append-nil u.written, fits, h)

write_loop_lem :
    (n : ℕ) (reads : List (List ℕ)) (u : Upload)
    → u.total ≡ length u.written
    → u.header ≡ take upload_header_bytes u.written
    → u.total ≤ n
    → write_loop n reads u ≡ expected n (u.written ++ sent_bytes reads)
unfolding write_loop
write_loop_lem n [] u t h b = write_loop-end n u t h b
write_loop_lem n ([] ∷ reads) u t h b = write_loop-end n u t h b
write_loop_lem n ((c ∷ cs) ∷ reads) u t h b =
    elim (Bool-cases (ltb n (u.total + length (c ∷ cs)))) [
      | inl over ↦
          let too_long : ltb n (length (u.written ++ sent_bytes ((c ∷ cs) ∷ reads))) ≡ true =
            ground (
              arith,
              over,
              t,
              length-append u.written ((c ∷ cs) ++ sent_bytes reads),
              length-append (c ∷ cs) (sent_bytes reads),
            ) in
          rw (over, too_long)
      | inr fits ↦
          rw (fits, ← append_assoc u.written (c ∷ cs) (sent_bytes reads))
            (write_loop_lem n reads
              (record {
                total = u.total + length (c ∷ cs);
                header = extend_header u.header (c ∷ cs);
                written = u.written ++ c ∷ cs;
              })
              (omega (arith, t, length-append u.written (c ∷ cs)))
              (rw h (extend_header-take u.written (c ∷ cs))) (ground (arith, fits)))
    ]

-- An upload is kept exactly when it is within the limit, however the client splits it: then the
-- file holds every byte sent and its first sixteen bytes are returned. Otherwise nothing is
-- returned and no file is left.
pub write_upload_in_chunks_lem :
    (max_upload_bytes : ℕ) (reads : List (List ℕ))
    → write_upload_in_chunks max_upload_bytes reads ≡ expected max_upload_bytes (sent_bytes reads)
unfolding write_upload_in_chunks
write_upload_in_chunks_lem n reads =
    write_loop_lem n reads (record { total = 0; header = []; written = [] }) refl refl (omega arith)
