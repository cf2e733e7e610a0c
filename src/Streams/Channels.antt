-- ===== src/Streams/Channels.antt =====
-- services/streams/channels_handler.go and health.go: the public endpoints on the store.
use vidcast.Base.{List, [], ◌∷◌, Bytes, codes}
use vidcast.Go.Http.{
  Request, Response, Json, Items, str, bool, arr, obj, field, end, nil, item, one,
}
use vidcast.Streams.HttpJson.{write_json}
use vidcast.Streams.Store.{Store, LiveChannel, list_live}

abbrev live_channel_json : LiveChannel → Json
live_channel_json c =
    obj (field (codes "slug") (str c.slug) (field (codes "live") (bool c.live) end))

unfoldable pub channel_items : List LiveChannel → Items
channel_items [] = nil
channel_items (c ∷ cs) = item (live_channel_json c) (channel_items cs)

abbrev pub channels_body : List LiveChannel → Json
channels_body cs = one (codes "channels") (arr (channel_items cs))

-- `newListChannelsHandler`.
unfoldable pub list_channels_handler : Store → Request → Response
unfolding write_json
list_channels_handler s r = write_json 200 (channels_body (list_live s))

-- `newRootHandler`.
unfoldable pub root_handler : Bytes → Response
unfolding write_json
root_handler version = write_json 200 (
    obj
      (field (codes "service") (str (codes "streams")) (field (codes "version") (str version) end)))

-- `newHealthHandler`.
unfoldable pub health_handler : Response
unfolding write_json
health_handler = write_json 200 (one (codes "status") (str (codes "ok")))
