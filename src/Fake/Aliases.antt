-- ===== src/Fake/Aliases.antt =====
-- `ListAliases` and `UpdateAliases`: the actions of one update are carried out in order.
use qdrant_operator.Common.{Text, List, [], ◌∷◌, ◌++◌, codes}
use qdrant_operator.Common.Dict
use qdrant_operator.Common.Dict.{Dict, text_key}
use qdrant_operator.Qdrant.{AliasAction, create_alias, delete_alias}
use qdrant_operator.Fake.{Fake}
use qdrant_operator.Fake.Answer.{Answer, done, unless_injected, injected_on}

unfoldable pub list_aliases : Fake → Answer (Dict Text Text)
list_aliases f = unless_injected (injected_on f (codes "ListAliases")) (done f.aliases)

unfoldable pub act : AliasAction → Dict Text Text → Dict Text Text
act (create_alias alias target) m = Dict.put alias target m
act (delete_alias alias) m = Dict.remove alias m

unfoldable pub act_all : List AliasAction → Dict Text Text → Dict Text Text
act_all [] m = m
act_all (a ∷ actions) m = act_all actions (act a m)

unfoldable pub update_aliases : Fake → List AliasAction → Answer Fake
update_aliases f actions = unless_injected (injected_on f (codes "UpdateAliases")) (
    done
      (record f { aliases = act_all actions f.aliases; alias_log = f.alias_log ++ (actions ∷ []) }))
