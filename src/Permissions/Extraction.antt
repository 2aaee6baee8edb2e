-- ===== src/Permissions/Extraction.antt =====
-- apps/desktop/src/main/permissions/command-extraction.ts: the commands on the lines of an output that
-- comes in chunks. A regular expression of the source is the function that its `test`, `exec` or
-- `replace` is: those of an agent are its AuditPattern, the others an argument.
pub mod Lines
pub mod Chunks
use teskra.Base.{
  ℕ, Bool, true, false, not, ◌&&◌, ◌||◌, List, [], ◌∷◌, ◌++◌, Option, none, some, Text, trim,
  trim_end, length, leb, ltb, is_empty, nat_eq, onto_first, newline, if◌then◌else◌,
}

pub record AuditPattern : Type 0 where
  -- The first group of the match, if there is one.
  pub pattern : Text → Option Text
  pub after_marker : Option (Text → Bool)

-- ANSI_PATTERN, promptLinePattern and leadingMarkerPattern.
pub record Expressions : Type 0 where
  pub strip_ansi : Text → Text
  pub prompt_line : Text → Option Text
  pub leading_marker : Text → Bool

-- MAX_COMMAND_LENGTH
abbrev pub max_command_length : ℕ
max_command_length = 500

-- MAX_PENDING_LINE_LENGTH
abbrev pub max_pending_line_length : ℕ
max_pending_line_length = 8192

abbrev pub carriage_return : ℕ
carriage_return = 13

-- `split(/\r\n|\r|\n/)`; the flag is set right behind a `\r`, whose `\n` is part of the same break.
unfoldable pub split_from : Bool → Text → List Text
split_from after_return [] = [] ∷ []
split_from after_return (c ∷ cs) =
    if nat_eq c carriage_return
    then [] ∷ split_from true cs
    else if nat_eq c newline
    then if after_return then split_from false cs else [] ∷ split_from false cs
    else onto_first c (split_from false cs)

-- `lines.pop() ?? ''`: the lines before the last one, and the last one.
unfoldable pub pop : List Text → List Text × Text
pop [] = ([], [])
pop (l ∷ []) = ([], l)
pop (l ∷ k ∷ ls) = let (before, last) = pop (k ∷ ls) in (l ∷ before, last)

abbrev pub is_command : Text → Bool
is_command command = not (is_empty command) && leb (length command) max_command_length

abbrev pub is_marker : Option (Text → Bool) → Text → Bool
is_marker none line = false
is_marker (some marker) line = marker line

abbrev pub waits : Option (Text → Bool) → Bool → Bool
waits none marker_matched = false
waits (some marker) marker_matched = not marker_matched

abbrev pub command_of : (Text → Bool) → Option Text → List Text
command_of accepts none = []
command_of accepts (some found) = if accepts (trim found) then trim found ∷ [] else []

abbrev pub agent_commands : Bool → Text → List AuditPattern → List Text
agent_commands marker_matched line [] = []
agent_commands marker_matched line (rule ∷ rules) =
    (if waits rule.after_marker marker_matched
      then []
      else command_of is_command (rule.pattern line))
    ++ agent_commands marker_matched line rules

abbrev pub matches_marker : Text → List AuditPattern → Bool
matches_marker line [] = false
matches_marker line (rule ∷ rules) = is_marker rule.after_marker line || matches_marker line rules

-- One output stream: the partial line, and whether the last line was a marker.
pub record CommandExtractor : Type 0 where
  pub patterns : List AuditPattern
  pub pending : Text
  pub marker_matched : Bool

unfoldable pub create_command_extractor : List AuditPattern → CommandExtractor
create_command_extractor patterns = record {
  patterns = patterns;
  pending = [];
  marker_matched = false;
}

module _ (e : Expressions) where
  abbrev pub is_invocation : Text → Bool
  is_invocation command = is_command command && not (e.leading_marker command)

  unfoldable pub extract_from_line : Text → List AuditPattern → Bool → List Text × Bool
  unfolding trim trim_end
  extract_from_line raw_line patterns marker_matched =
      let line = trim_end (e.strip_ansi raw_line) in
      (
        agent_commands marker_matched line patterns
            ++ command_of is_invocation (e.prompt_line line),
        matches_marker line patterns,
      )

  -- The commands of the lines, and the flag for the line behind them.
  unfoldable pub recognize : List AuditPattern → Bool → List Text → List Text × Bool
  unfolding extract_from_line
  recognize patterns marker_matched [] = ([], marker_matched)
  recognize patterns marker_matched (l ∷ ls) =
      let (found, marker) = extract_from_line l patterns marker_matched in
      let (commands, last) = recognize patterns marker ls in (found ++ commands, last)

  abbrev pub recognized : CommandExtractor → Text → List Text → CommandExtractor × List Text
  recognized x pending lines =
      let (commands, marker) = recognize x.patterns x.marker_matched lines in
      (record x { pending = pending; marker_matched = marker }, commands)

  unfoldable pub push : CommandExtractor → Text → CommandExtractor × List Text
  unfolding split_from pop recognize
  push x chunk =
      let (lines, pending) = pop (split_from false (x.pending ++ chunk)) in
      if ltb max_pending_line_length (length pending)
      then recognized x [] (lines ++ pending ∷ [])
      else recognized x pending lines

  unfoldable pub flush : CommandExtractor → CommandExtractor × List Text
  unfolding recognize
  flush x =
      if is_empty x.pending
      then (record x { pending = [] }, [])
      else recognized x [] (x.pending ∷ [])

  -- `[...extractor.push(outputChunk), ...extractor.flush()]`
  unfoldable pub extract_executed_commands : Text → List AuditPattern → List Text
  unfolding push flush create_command_extractor
  extract_executed_commands chunk patterns =
      let (x, commands) = push (create_command_extractor patterns) chunk in commands ++ (flush x).1
