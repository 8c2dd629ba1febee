-- ===== src/Tests/Pulls.antt =====
-- The theorem on the pull from the corpus, at three accounts of which one is changed again.
use fintech_data_platform.Prelude.{some, List, [], ◌∷◌}
use fintech_data_platform.Json.{end}
use fintech_data_platform.Salesforce.Corpus.{Change, Sobject, changes, unseeded}
use fintech_data_platform.Salesforce.Pages.Complete.{IsComplete, pull_whole}

abbrev made : List Change
made =
    Change.insertion Sobject.account "a" end 5
    ∷ Change.insertion Sobject.account "b" end 3
    ∷ Change.insertion Sobject.account "c" end 3
    ∷ Change.mutation Sobject.account 0 end 4
    ∷ []

pull_whole_example : IsComplete Sobject.account (changes made (unseeded 0)) (some 5) 2
pull_whole_example = pull_whole made 0 Sobject.account 1 (some 5)
