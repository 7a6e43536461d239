-- ===== src/Tests/OfStart.antt =====
-- Runs of main.go with NewNodeMgr, and of EstablishConn.
use dex_executorgo.Prelude.{
  ◌≡◌, ◌⊎◌, refl, true, false, Option, none, some, List, [], ◌∷◌, if◌then◌else◌,
}
use dex_executorgo.Go.Text.{Text, lit, text_eq}
use dex_executorgo.Go.Outcome.{returns, panics, nil_deref}
use dex_executorgo.Go.Dict.{Dict, lookup}
use dex_executorgo.Types.{WsRequest}
use dex_executorgo.Config.{ChainItem}
use dex_executorgo.Start.{Started, start_all}
use dex_executorgo.Start.Chains.{AreManagers, all_dialled, start_all_lem}
use dex_executorgo.Socket.Config.{handle}
use dex_executorgo.Socket.Dial.{Network}
use dex_executorgo.NodeClient.{NodeClient, block_header_request, establish_on}
use dex_executorgo.NodeClient.Establishes.{good_url, with_dial, establish_on-with_dial}
use dex_executorgo.Tests.Data.{platform, item_at}

abbrev chains : Dict ChainItem
chains =
    (lit "avalanche_v1", item_at (lit "http://node"))
    ∷ (lit "bsc_v1", item_at (lit "http://down"))
    ∷ []

abbrev dial : Text → Option Text
unfolding text_eq
dial url = if text_eq url (lit "http://down") then some (lit "refused") else none

start_all_lem_example :
    ((all_dialled dial chains ≡ true)
      × ((ss : List (Started platform)) × (start_all platform dial [] [] chains ≡ returns ss)
          × AreManagers platform dial [] [] chains ss))
    ⊎ ((all_dialled dial chains ≡ false)
        × (start_all platform dial [] [] chains ≡ panics nil_deref))
unfolding lookup
start_all_lem_example = start_all_lem platform dial [] [] chains refl

abbrev node : NodeClient
node = record { rpc_url = lit "http://node"; ws_endpoint = lit "wss://node"; header_ws_list = [] }

abbrev net : Network
net = record { resolve_ip_addr = λ name. none; is_url = λ t. true; dial = λ d url headers. none }

abbrev marshal : WsRequest → Option Text
marshal request = some request.method

establish_on-with_dial_example :
    establish_on marshal net node (lit "http://proxy") (handle 1) (handle 2) block_header_request
    ≡ returns (
        with_dial marshal net node
          (lit "http://proxy")
          (handle 1)
          (handle 2)
          block_header_request
          none)
establish_on-with_dial_example =
    establish_on-with_dial marshal net node (lit "http://proxy") (handle 1) (handle 2)
      block_header_request (good_url refl)
