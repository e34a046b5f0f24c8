-- ===== src/Program/Usage.antt =====
-- `long_options` and `print_usage` of mysqlpcap.cc: what is written, line by line. The name of the
-- program is an argument.
pub mod Aligned
use Prim.Native.String.{String}
use mysqlpcap.Base.{
  codes, ℕ, zero, suc, ◌+◌, ◌-◌, ◌&&◌, List, [], ◌∷◌, ◌++◌, Bytes, length, ltb, if◌then◌else◌,
}

pub data HasArg : Type 0 where
  no_argument : HasArg
  required_argument : HasArg
  optional_argument : HasArg

-- `struct option`, of which `flag` is null
pub record LongOption : Type 0 where
  pub name : Bytes
  pub has_arg : HasArg
  pub val : ℕ

abbrev pub option : String → HasArg → ℕ → LongOption
option name arg val = record { name = codes name; has_arg = arg; val = val }

-- The table up to the entry that ends it.
abbrev pub long_options : List LongOption
long_options =
    option "input" required_argument b'i'
    ∷ option "port" required_argument b'p'
    ∷ option "ip" required_argument b'h'
    ∷ option "print-n-slow" required_argument b'n'
    ∷ option "ethernet-header-size" required_argument b'e'
    ∷ option "explain" no_argument b'E'
    ∷ option "analyze" no_argument b'A'
    ∷ option "run" no_argument b'R'
    ∷ option "replay-host" required_argument 230
    ∷ option "replay-port" required_argument 231
    ∷ option "replay-user" required_argument 232
    ∷ option "replay-pw" required_argument 233
    ∷ option "replay-ssl-ca" required_argument 235
    ∷ option "replay-ssl-cert" required_argument 236
    ∷ option "replay-ssl-key" required_argument 237
    ∷ option "replay-host" required_argument 230
    ∷ option "replay-db" required_argument 234
    ∷ option "replay-speed" required_argument 238
    ∷ option "query-pattern-regex" required_argument b'q'
    ∷ option "progress" no_argument 239
    ∷ option "record-for-replay" required_argument 240
    ∷ option "assert-on-query-error" no_argument 241
    ∷ option "ignore-dup-key-errors" no_argument 242
    ∷ option "csv" required_argument 243
    ∷ option "table-stats" required_argument 244
    ∷ option "version" no_argument b'v'
    ∷ option "verbose" no_argument b'V'
    ∷ option "help" no_argument b'H'
    ∷ []

abbrev pub descriptions : List Bytes
descriptions =
    codes "Input pcap file."
    ∷ codes "Target server port (used for filtering)."
    ∷ codes "Target server IP address (used for filtering)."
    ∷ codes "Print N slowest queries (N is an integer)."
    ∷ codes "Ethernet header size (default 14, useful for raw packets)."
    ∷ codes "Explain the top slow queries."
    ∷ codes "Analyze queries and generate a performance summary."
    ∷ codes "Run or Replay the captured queries against a target MySQL server"
    ∷ codes "[REPLAY] MySQL host to replay queries against."
    ∷ codes "[REPLAY] MySQL port to replay queries against."
    ∷ codes "[REPLAY] MySQL username for replay."
    ∷ codes "[REPLAY] MySQL password for replay."
    ∷ codes "[REPLAY] Path to SSL CA certificate."
    ∷ codes "[REPLAY] Path to SSL certificate."
    ∷ codes "[REPLAY] Path to SSL key file."
    ∷ codes "[REPLAY] Target host for replay."
    ∷ codes "[REPLAY] Target database name for replay."
    ∷ codes "[REPLAY] Replay speed multiplier (e.g., 0.5 for half speed, 2.0 for double speed)."
    ∷ codes "Regex to group queries"
    ∷ codes "Display a progress indicator during processing or replay."
    ∷ codes
        "Record the captured queries into a more compact MCAP file for future replay using less storage."
    ∷ codes "[REPLAY] Exit immediately if a query fails during replay."
    ∷ codes "[REPLAY] Ignore duplicate key errors during replay."
    ∷ codes "Output analysis results to a CSV file at the specified path."
    ∷ codes "Output table usage statistics (selects, updates, deletes) to the specified file."
    ∷ codes "Print verision and exit"
    ∷ codes "Print this help message and exit"
    ∷ []

abbrev pub blanks : ℕ → Bytes
blanks zero = []
blanks (suc n) = b' ' ∷ blanks n

abbrev pub newline : Bytes
newline = 10 ∷ []

-- The short option, or four blanks.
unfoldable pub short_text : (val : ℕ) → Bytes
short_text val = if ltb 0 val && ltb val 128 then b'-' ∷ val ∷ b',' ∷ b' ' ∷ [] else blanks 4

unfoldable pub arg_text : HasArg → Bytes
arg_text no_argument = []
arg_text required_argument = codes " <ARG>"
arg_text optional_argument = codes " [ARG]"

-- `option_str`
unfoldable pub option_str : LongOption → Bytes
unfolding short_text arg_text
option_str o = short_text o.val ++ (codes "--" ++ (o.name ++ arg_text o.has_arg))

-- `if (option_str.length() > max_option_width) max_option_width = option_str.length()`
unfoldable pub wider : (max_option_width size : ℕ) → ℕ
wider w n = if ltb w n then n else w

-- The first pass.
unfoldable pub widest : (max_option_width : ℕ) → List LongOption → ℕ
widest w [] = w
widest w (o ∷ os) = widest (wider w (length (option_str o))) os

-- `std::left << std::setw(width) << text`
unfoldable pub set_width : (width : ℕ) → (text : Bytes) → Bytes
set_width width text = text ++ blanks (width - length text)

-- One line of the second pass.
unfoldable pub option_line : (width : ℕ) → LongOption → (description : Bytes) → Bytes
option_line width o d = blanks 2 ++ (set_width width (option_str o) ++ (d ++ newline))

-- The line for an option that has no description.
unfoldable pub missing_line : LongOption → Bytes
missing_line o = codes "  (Error: Missing description for --" ++ (o.name ++ (codes ")" ++ newline))

-- The second pass, which ends at the first option that has no description.
unfoldable pub option_lines : (width : ℕ) → List LongOption → List Bytes → List Bytes
unfolding option_line missing_line
option_lines width [] ds = []
option_lines width (o ∷ os) [] = missing_line o ∷ []
option_lines width (o ∷ os) (d ∷ ds) = option_line width o d ∷ option_lines width os ds

-- `print_usage` behind its heading, of a table and its descriptions. `PADDING_MARGIN` is 2.
unfoldable pub usage_of : List LongOption → List Bytes → List Bytes
unfolding widest option_lines
usage_of os ds = option_lines (widest 0 os + 2) os ds

unfoldable pub print_usage : (prog_name : Bytes) → List Bytes
unfolding usage_of
print_usage prog_name =
    (codes "Usage: " ++ (prog_name ++ (codes " [options]" ++ (newline ++ newline))))
    ∷ (codes "Options for mysqlpcap - MySQL Packet Capture and Analysis Tool:"
        ++ (newline ++ newline))
    ∷ (usage_of long_options descriptions ++ newline ∷ [])
