-- ===== src/GraphFw/Cli.antt =====
-- dpdk-graph-fw/control/cli.c
use Prim.Native.Char.{code}
use Prim.Native.String.{String}
use dpdk_for_beginners.Base.{
  ℕ, Bool, true, false, List, [], ◌∷◌, ◌++◌, ◌≡◌, refl, ap, inl, inr, ◌==◌, if◌then◌else◌,
  Bool-cases,
}
use dpdk_for_beginners.GraphFw.Walk.{App}

-- the bytes of a text
abbrev pub codes : String → List ℕ
codes String.[] = []
codes (String.◌∷◌ c s) = code c ∷ codes s

-- `strncmp(cmd, prefix, n) == 0`, where `n` is the length of `prefix`
unfoldable pub has_prefix : List ℕ → List ℕ → Bool
has_prefix [] cmd = true
has_prefix (p ∷ ps) [] = false
has_prefix (p ∷ ps) (c ∷ cs) = let rest = has_prefix ps cs in if p == c then rest else false

-- what a line asks for, in the order of the tests
pub data Command : Type 0 where
  enable_firewall disable_firewall show_stats quit help : Command

unfoldable pub command : List ℕ → Command
unfolding has_prefix
command cmd =
    if has_prefix (codes "enable firewall") cmd
    then enable_firewall
    else if has_prefix (codes "disable firewall") cmd
    then disable_firewall
    else if has_prefix (codes "show stats") cmd
    then show_stats
    else if has_prefix (codes "quit") cmd
    then quit
    else help

-- what it does to the variables; statistics and help only print
unfoldable pub obey : Command → App → App
obey enable_firewall a = record a { firewall_enabled = true }
obey disable_firewall a = record a { firewall_enabled = false }
obey show_stats a = a
obey quit a = record a { app_running = false }
obey help a = a

-- `run_cli` on the lines that `fgets` returns, as long as the program runs
unfoldable pub run_cli : List (List ℕ) → App → App
run_cli [] a = a
run_cli (cmd ∷ cmds) a =
    let rest = run_cli cmds (obey (command cmd) a) in if a.app_running then rest else a

stopped : (cmds : List (List ℕ)) (a : App) → a.app_running ≡ false → run_cli cmds a ≡ a
unfolding run_cli
stopped [] a h = refl
stopped (cmd ∷ cmds) a h = rw h

-- `quit` ends the command line: the lines behind it are not obeyed.
pub run_cli-quit :
    (before : List (List ℕ)) (line : List ℕ) (behind : List (List ℕ)) (a : App)
    → command line ≡ quit
    → run_cli (before ++ (line ∷ behind)) a ≡ run_cli (before ++ (line ∷ [])) a
unfolding run_cli obey
run_cli-quit [] line behind a q = elim (Bool-cases a.app_running) [
  | inl y ↦ rw (y, q) (stopped behind (record a { app_running = false }) refl)
  | inr n ↦ rw n
]
run_cli-quit (b ∷ before) line behind a q =
    ap (λ (r : App). if a.app_running then r else a) (run_cli-quit before line behind _ q)
