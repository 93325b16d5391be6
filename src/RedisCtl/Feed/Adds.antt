-- ===== src/RedisCtl/Feed/Adds.antt =====
-- `auto` and the domains that it downloads.
use dnsliar_rs.Base.{ℕ, String}
use dnsliar_rs.Base.Text.{◌<>◌}
use dnsliar_rs.RedisCtl.{Connection}
use dnsliar_rs.RedisCtl.Feed.{Outside}
use dnsliar_rs.RedisCtl.Feed.Spares.{Hashes}
use dnsliar_rs.RedisCtl.Feed.Named.{Writes}

module _ {World Fault : Type 0} (connection : Connection World Fault)
    (outside : Outside World Fault) (hashes : Hashes connection outside)
    (writes : Writes connection outside hashes) (filter domain : String) where
  abbrev said : ℕ → World → World
  said dl_cnt w =
      connection.println "Querying Redis..."
        (connection.println (connection.show_usize dl_cnt <> " file(s) downloaded and encoded") w)
