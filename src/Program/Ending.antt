-- ===== src/Program/Ending.antt =====
-- How the loop of commands ends.
use cashmere.Base.{ℕ, ◌≡◌, refl, false, List, [], ◌∷◌, ◌++◌, Option, some, codes}
use cashmere.Text.{fresh, space, scan, skip_space}
use cashmere.Broker.{World, done, M, ◌>>=◌, pure}
use cashmere.Command.{
  Command, quit, empty_command, ok, read_word, word_in, find_type, text_eq, read_arguments,
  read_command,
}
use cashmere.Command.RoundTrip.{disconnect_throws}
use cashmere.Program.{Calls, aborted, execute, prompt, serve}

quit_line : (more : List ℕ) → List ℕ
quit_line more = codes "quit" ++ space ∷ more

read_quit :
    (more : List ℕ)
    → read_command (fresh (quit_line more))
      ≡ ok (record empty_command { kind = quit; name = codes "quit" })
unfolding quit_line read_command read_word word_in skip_space find_type text_eq read_arguments
read_quit more = refl

module _ (help : List ℕ) (get_or_create : List ℕ → M (Option ℕ)) (journal : Calls) (port : ℕ) where
  -- A line of the terminal that begins with the word `quit` ends the service as the end of the input
  -- does: the lines after it are not read. That holds if the command before it ends, and the balance can
  -- be computed.
  serve_quit :
      (more : List ℕ) (rest : List (List ℕ)) (c : Command) (w w' w'' : World)
      (printed text : List ℕ)
      → execute help get_or_create journal port c.kind c w ≡ done printed w'
      → prompt help get_or_create journal port w' ≡ done (some text) w''
      → serve help get_or_create journal port (quit_line more ∷ rest) c w
        ≡ serve help get_or_create journal port [] c w
  unfolding serve ◌>>=◌ pure
  serve_quit more rest c w w' w'' printed text e p = rw (e, p, read_quit more) refl

  -- A line that names the command `disconnect` without a number, be it that the line ends there or that
  -- its next word does not begin with a number, ends the program with an exception, right after the
  -- prompt that asked for it. That holds if the command before it ends, and the balance can be computed.
  pub serve_disconnect :
      (line : List ℕ) (rest : List (List ℕ)) (c : Command) (w w' w'' : World)
      (printed text : List ℕ)
      → (read_word (fresh line)).0 ≡ codes "disconnect"
      → (scan 10 (skip_space (read_word (read_word (fresh line)).1).0)).2 ≡ false
      → execute help get_or_create journal port c.kind c w ≡ done printed w'
      → prompt help get_or_create journal port w' ≡ done (some text) w''
      → serve help get_or_create journal port (line ∷ rest) c w
        ≡ done (aborted ((printed ++ text) ++ [])) w''
  unfolding serve ◌>>=◌ pure
  serve_disconnect line rest c w w' w'' printed text name h e p =
      rw (e, p, disconnect_throws line name h) refl
