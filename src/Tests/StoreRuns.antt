-- ===== src/Tests/StoreRuns.antt =====
-- A history of calls on a new store.
use vidcast.Base.{◌≡◌, true, ok, nat_eq, bytes_eq, contains}
use vidcast.Base.Dict.{lookup}
use vidcast.Streams.Store.{new_store, list_live}
use vidcast.Streams.Store.Index.{IsValid}
use vidcast.Streams.Store.Runs.{creates, run, step, run-new_store-IsValid}
use vidcast.Streams.Store.Listing.{list_live_lem, slugs_of}
use vidcast.Streams.Store.Registry.{registry-step, registry, promise}
use vidcast.Tests.{sha256, alice, bob, raw_b, one_channel, history}
use vidcast.Tests.StoreKeys.{one_channel-IsValid}

registry-step_example :
    (step sha256 one_channel (creates bob (ok raw_b))).1
    ≡ (promise sha256 (registry one_channel) (creates bob (ok raw_b))).1
registry-step_example = (registry-step sha256 one_channel (creates bob (ok raw_b))).1

run-new_store-IsValid_example : IsValid (run sha256 new_store history)
run-new_store-IsValid_example = run-new_store-IsValid sha256 history

list_live_lem_example : contains (slugs_of (list_live one_channel)) alice ≡ true
unfolding lookup bytes_eq nat_eq
list_live_lem_example = (list_live_lem one_channel one_channel-IsValid).2 alice
