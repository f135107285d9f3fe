-- ===== src/Policy/Radb/Routes.antt =====
-- What utils/radb.go makes of answers that the whois server ends as it should.
use mathlib.Core.List.{append-nil, append_assoc}
use wpoven_nobot.Base.{
  text_equality, All, Text, ascii, ℕ, suc, ◌+◌, ◌≡◌, refl, Bool, false, Option, none, some, List,
  [], ◌∷◌, ◌++◌, ap, ◌∙◌, ◌≤◌, arith,
}
use wpoven_nobot.Text.{trim_space, decimal}
use wpoven_nobot.Policy.Radb.{
  trim_line, is_end, read_records, Conn, run_queries, query_server, collect_routes, parse_routes,
  fetch_as_nets, write,
}
use wpoven_nobot.Policy.Networks.{◌>>=◌, IpNet}
use mathlib.Core.List.{append_assoc}

-- The end of a record.
abbrev pub end_line : Text
end_line = ascii "C"

-- Answers, each with its end, and what the server sends behind them.
abbrev pub stream : List (List Text) → List Text → List Text
stream [] rest = rest
stream (reply ∷ replies) rest = reply ++ end_line ∷ stream replies rest

-- Records that do not look like the end of one.
abbrev pub ArePlain : List Text → Type 0
ArePlain reply = All (λ line. is_end (trim_line line) ≡ false) reply

-- The writes of a connection that lets the queries be written, and what has been sent after them.
abbrev pub room_for : List Text → ℕ → ℕ
room_for [] m = m
room_for (q ∷ qs) m = suc (room_for qs m)

abbrev pub sent_after : List Text → List Text → List Text
sent_after [] sent = sent
sent_after (q ∷ qs) sent = sent_after qs (sent ++ (trim_space q ++ 10 ∷ []) ∷ [])

-- A query for each answer.
abbrev pub Paired : List Text → List (List Text) → Type 0
Paired [] [] = Unit
Paired (q ∷ qs) (reply ∷ replies) = Paired qs replies
Paired _ _ = ⊥

abbrev at : List Text → Bool → ℕ → List Text → Conn
at incoming bad m sent = record { incoming = incoming; scan_error = bad; writable = m; sent = sent }

module _ {ℓ} {A : Type ℓ} (fn : ℕ → Text → A → Option A) where
  -- The records of an answer, from a number on.
  abbrev pub fold_reply : ℕ → List Text → A → Option A
  fold_reply n [] acc = some acc
  fold_reply n (line ∷ lines) acc = fn n (trim_line line) acc >>= fold_reply (n + 1) lines

  -- The records of each answer, numbered from zero.
  abbrev pub fold_replies : List (List Text) → A → Option A
  fold_replies [] acc = some acc
  fold_replies (reply ∷ replies) acc = fold_reply 0 reply acc >>= fold_replies replies

  after_record :
      (o : Option A) (f : A → Option (A × List Text)) (g : A → Option A) (rest : List Text)
      → ((a : A) → f a ≡ (g a >>= λ b. some (b, rest)))
      → (o >>= f) ≡ ((o >>= g) >>= λ b. some (b, rest))
  after_record none f g rest h = refl
  after_record (some a) f g rest h = h a

  read_records-fold_reply :
      (bad : Bool) (n : ℕ) (reply rest : List Text) (acc : A)
      → ArePlain reply
      → read_records fn bad n (reply ++ end_line ∷ rest) acc
        ≡ (fold_reply n reply acc >>= λ a. some (a, rest))
  unfolding read_records trim_line
  read_records-fold_reply bad n [] rest acc h = refl
  read_records-fold_reply bad n (line ∷ reply) rest acc (plain, h) = rw plain (
      after_record (fn n (trim_line line) acc)
        (read_records fn bad (n + 1) (reply ++ end_line ∷ rest)) (fold_reply (n + 1) reply) rest
        (λ a. read_records-fold_reply bad (n + 1) reply rest a h))

  after_answer :
      {B : Type ℓ} (o : Option A) (rest : List Text) (f : A × List Text → Option B)
      (g : A → Option A) (h : A → Option B)
      → ((a : A) → f (a, rest) ≡ (g a >>= h))
      → ((o >>= λ a. some (a, rest)) >>= f) ≡ ((o >>= g) >>= h)
  after_answer none rest f g h e = refl
  after_answer (some a) rest f g h e = e a

  run_queries-fold_replies :
      (qs : List Text) (replies : List (List Text)) (rest : List Text) (bad : Bool) (m : ℕ)
      (sent : List Text) (acc : A)
      → Paired qs replies
      → All ArePlain replies
      → run_queries fn qs (at (stream replies rest) bad (room_for qs m) sent) acc
        ≡ (fold_replies replies acc >>= λ a. some (a, at rest bad m (sent_after qs sent)))
  unfolding run_queries
  run_queries-fold_replies [] [] rest bad m sent acc p h = refl
  run_queries-fold_replies [] (r ∷ rs) rest bad m sent acc p h = absurd p
  run_queries-fold_replies (q ∷ qs) [] rest bad m sent acc p h = absurd p
  run_queries-fold_replies (q ∷ qs) (r ∷ rs) rest bad m sent acc p (plain, h) =
      rw (read_records-fold_reply bad 0 r (stream rs rest) acc plain) (
        after_answer (fold_reply 0 r acc) (stream rs rest) _ (fold_replies rs) _ (λ a.
          run_queries-fold_replies qs rs rest bad m (sent ++ (trim_space q ++ 10 ∷ []) ∷ []) a p h))

closing :
    {A B : Type 0} (o : Option A) (end : Conn) (f : A × Conn → Option (A × Conn)) (g : A → Option B)
    (c : Conn)
    → ((a : A) → f (a, c) ≡ some (a, end))
    → (((o >>= λ a. some (a, c)) >>= f) >>= λ got. g got.0) ≡ (o >>= g)
closing none end f g c h = refl
closing (some a) end f g c h = rw (h a) refl

fetch_as_nets_folds :
    (find_routes : Text → List Text) (parse_cidr : Text → Option IpNet) (asn : ℕ) (bad : Bool)
    (m : ℕ) (v4 v6 rest : List Text)
    → ArePlain v4
    → ArePlain v6
    → fetch_as_nets find_routes parse_cidr asn (
        some (record {
          incoming = stream (v4 ∷ v6 ∷ []) rest;
          scan_error = bad;
          writable = suc (suc (suc (suc m)));
          sent = [];
        }))
      ≡ (fold_replies collect_routes (v4 ∷ v6 ∷ []) [] >>= λ text.
          parse_routes parse_cidr (find_routes text))
unfolding fetch_as_nets query_server
fetch_as_nets_folds find_routes parse_cidr asn bad m v4 v6 rest p4 p6 =
    let ask4 = ascii "!gas" ++ decimal asn in
    let ask6 = ascii "!6as" ++ decimal asn in
    rw
      (run_queries-fold_replies collect_routes (ask4 ∷ ask6 ∷ []) (v4 ∷ v6 ∷ []) rest bad (suc m)
        ((ascii "!!" ++ 10 ∷ []) ∷ []) [] tt (p4, (p6, tt)))
      (closing (fold_replies collect_routes (v4 ∷ v6 ∷ []) [])
        (at rest bad m (
          sent_after (ask4 ∷ ask6 ∷ []) ((ascii "!!" ++ 10 ∷ []) ∷ [])
          ++ (ascii "q" ++ 10 ∷ []) ∷ []))
        (λ got. write (ascii "q" ++ 10 ∷ []) got.1 >>= λ closed. some (got.0, closed))
        (λ text. parse_routes parse_cidr (find_routes text)) _ (λ text. refl))

-- Records, one directly behind the other.
abbrev pub glued : List Text → Text
glued [] = []
glued (r ∷ records) = trim_line r ++ glued records

-- The text that the routes of an answer are looked for in: a space, and the records behind the first,
-- one directly behind the other.
abbrev pub answer_text : List Text → Text
answer_text [] = []
answer_text (head ∷ []) = []
answer_text (head ∷ r ∷ records) = 32 ∷ glued ((r ∷ records))

-- The matches are the texts of these networks.
abbrev pub AreTexts : (Text → Option IpNet) → List Text → List IpNet → Type 0
AreTexts parse_cidr [] [] = Unit
AreTexts parse_cidr (m ∷ ms) (net ∷ nets) = (parse_cidr m ≡ some net) × AreTexts parse_cidr ms nets
AreTexts parse_cidr _ _ = ⊥

parse_routes-AreTexts :
    (parse_cidr : Text → Option IpNet) (matches : List Text) (nets : List IpNet)
    → AreTexts parse_cidr matches nets
    → parse_routes parse_cidr matches ≡ some nets
unfolding parse_routes
parse_routes-AreTexts parse_cidr [] [] h = refl
parse_routes-AreTexts parse_cidr [] (net ∷ nets) h = absurd h
parse_routes-AreTexts parse_cidr (m ∷ ms) [] h = absurd h
parse_routes-AreTexts parse_cidr (m ∷ ms) (net ∷ nets) (e, h) =
    rw (e, parse_routes-AreTexts parse_cidr ms nets h) refl

collect_later : (n : ℕ) (r text : Text) → 2 ≤ n → collect_routes n r text ≡ some (text ++ r)
collect_later n r text h = ground (arith, h)

fold_records :
    (n : ℕ) (records : List Text) (text : Text)
    → 2 ≤ n
    → fold_reply collect_routes n records text ≡ some (text ++ glued records)
fold_records n [] text h = rw (append-nil text) refl
fold_records n (r ∷ records) text h =
    rw (collect_later n (trim_line r) text h)
      (fold_records (n + 1) records (text ++ trim_line r) (omega (arith, h)))
    ∙ ap (λ (t : Text). some t) (append_assoc text (trim_line r) (glued records))

fold_answer :
    (reply : List Text) (text : Text)
    → fold_reply collect_routes 0 reply text ≡ some (text ++ answer_text reply)
fold_answer [] text = rw (append-nil text) refl
fold_answer (head ∷ []) text = rw (append-nil text) refl
fold_answer (head ∷ r ∷ records) text =
    let tail = glued records in
    fold_records 2 records ((text ++ 32 ∷ []) ++ trim_line r) (omega arith)
    ∙ ap (λ (t : Text). some t)
        (append_assoc (text ++ 32 ∷ []) (trim_line r) tail
          ∙ append_assoc text (32 ∷ []) (trim_line r ++ tail))

-- When the server ends each of its two answers as it should, and the connection takes what is
-- written, the networks of an AS are those whose texts are found in the records of both answers behind
-- the first record of each, whatever the server sends behind the answers. Before the second record of
-- an answer stands a space; further records stand directly behind one another.
pub fetch_as_nets_replies :
    (find_routes : Text → List Text) (parse_cidr : Text → Option IpNet) (asn : ℕ) (bad : Bool)
    (m : ℕ) (v4 v6 rest : List Text) (nets : List IpNet)
    → ArePlain v4
    → ArePlain v6
    → AreTexts parse_cidr (find_routes (answer_text v4 ++ answer_text v6)) nets
    → fetch_as_nets find_routes parse_cidr asn (
        some (record {
          incoming = stream (v4 ∷ v6 ∷ []) rest;
          scan_error = bad;
          writable = suc (suc (suc (suc m)));
          sent = [];
        }))
      ≡ some nets
fetch_as_nets_replies find_routes parse_cidr asn bad m v4 v6 rest nets p4 p6 found =
    fetch_as_nets_folds find_routes parse_cidr asn bad m v4 v6 rest p4 p6
    ∙ rw (fold_answer v4 [], fold_answer v6 (answer_text v4))
        (parse_routes-AreTexts parse_cidr _ nets found)
