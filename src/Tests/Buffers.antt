-- ===== src/Tests/Buffers.antt =====
-- The theorems on buffers, lines and command words, at the bytes "ab", a newline, and "cd".
use ftpserv_u.Prelude.{
  ℕ, suc, ◌≡◌, refl, pos, false, ◌&&◌, some, none, [], ◌∷◌, ◌++◌, Out, done, fault, ◌>>=◌, arith,
  ltb, length, if◌then◌else◌, map, ◌<◌, ◌⊎◌, ◌≢◌, inl, inr,
}
use ftpserv_u.Memory.{Bytes, is_space, is_alpha, to_upper}
use ftpserv_u.Text.{codes}
use ftpserv_u.IoBuffer.{next_line_raw}
use ftpserv_u.IoBuffer.Contents.{IsValid, contents}
use ftpserv_u.IoBuffer.Split.{split_line, line_text, is_harmless, chomp}
use ftpserv_u.IoBuffer.NextLine.{next_line-some, line_block, after_line}
use ftpserv_u.IoBuffer.Loop.{
  split_lines, split_lines-append, each_line, each_line_lem, fold_blocks, WritesInside, holding,
}
use ftpserv_u.Mnemonic.{parse_command}
use ftpserv_u.Mnemonic.Words.{parse_command_words}
use ftpserv_u.Mnemonic.Total.{parse_command_total, Capitals, HasNul}
use ftpserv_u.Network.{Received, received, read_buffer}
use ftpserv_u.Network.Reading.{grown, read_buffer_lem}
use ftpserv_u.Tests.{two_lines, two_lines-IsValid}

abbrev ab : Bytes
ab = 97 ∷ 98 ∷ []

abbrev cd : Bytes
cd = 99 ∷ 100 ∷ []

next_line-some_example : next_line_raw 0 false two_lines ≡ (
    if is_harmless 0 false ab && ltb (length (line_text false ab)) 8
    then done (
      some (line_block two_lines (line_text false ab)),
      after_line two_lines (line_text false ab) cd,
    )
    else fault)
unfolding split_line
next_line-some_example = next_line-some two_lines-IsValid refl 0 false

-- A handler that counts the lines, and clears the first byte of each.
abbrev count_line : ℕ → Bytes → Out (ℕ × Bytes)
count_line n [] = done (suc n, [])
count_line n (c ∷ cs) = done (suc n, 0 ∷ cs)

count_line-inside : WritesInside count_line
count_line-inside n [] = refl
count_line-inside n (c ∷ cs) = refl

each_line_lem_example : each_line count_line 6 0 false two_lines 0 ≡ (
    fold_blocks count_line false (split_lines (contents two_lines)).0 two_lines.line 0
    >>= λ (block, n). done (holding two_lines block (split_lines (contents two_lines)).1, n))
unfolding split_lines line_text chomp is_harmless
each_line_lem_example =
    each_line_lem count_line count_line-inside 0 false 6 0 two_lines-IsValid (omega arith)
      ((refl, omega arith), tt)

split_lines-append_example : split_lines (ab ++ (10 ∷ cd)) ≡ (
  (split_lines ab).0 ++ (split_lines ((split_lines ab).1 ++ (10 ∷ cd))).0,
  (split_lines ((split_lines ab).1 ++ (10 ∷ cd))).1,
)
split_lines-append_example = split_lines-append ab (10 ∷ cd)

parse_command_words_example :
    parse_command (32 ∷ (codes "cwd" ++ (32 ∷ (32 ∷ (codes "games" ++ (0 ∷ []))))))
    ≡ done (some (map to_upper (codes "cwd"), codes "games" ++ (0 ∷ [])))
unfolding is_space is_alpha
parse_command_words_example =
    parse_command_words (32 ∷ []) (codes "cwd") 32 (32 ∷ []) (codes "games" ++ (0 ∷ [])) (refl, tt)
      (refl, (refl, (refl, tt))) (λ e. cc) refl (refl, tt) refl

parse_command_total_example :
    (parse_command (codes "syst" ++ (0 ∷ [])) ≡ done none)
    ⊎ ((w : Bytes) × (r : Bytes) × (parse_command (codes "syst" ++ (0 ∷ [])) ≡ done (some (w, r)))
        × Capitals w
        × (w ≢ [])
        × HasNul r)
parse_command_total_example =
    parse_command_total (codes "syst" ++ (0 ∷ [])) (inr (inr (inr (inr (inl refl)))))

abbrev recv_two : ℕ → Received
recv_two n = received cd

read_buffer_lem_example :
    (read_buffer recv_two (pos 7) two_lines ≡ done (pos 2, grown two_lines cd))
    × IsValid (grown two_lines cd)
    × (contents (grown two_lines cd) ≡ contents two_lines ++ cd)
    × ((grown two_lines cd).head < 8)
read_buffer_lem_example =
    read_buffer_lem recv_two (pos 7) cd refl two_lines-IsValid (omega arith) refl (omega arith)
