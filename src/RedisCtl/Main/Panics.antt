-- ===== src/RedisCtl/Main/Panics.antt =====
-- Panics in the command line tool.
use dnsliar_rs.Base.{◌≡◌, none}
use dnsliar_rs.RedisCtl.NoPanic.{NoPanic}
use dnsliar_rs.RedisCtl.Main.{Commands, add_rule}

-- What `clap` makes: the second address of a rule is there only with the first.
abbrev pub IsParsed : Commands → Type 0
IsParsed (add_rule filter source domain ip1 ip2) = ip1 ≡ none → ip2 ≡ none
IsParsed _ = Unit
