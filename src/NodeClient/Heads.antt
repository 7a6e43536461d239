-- ===== src/NodeClient/Heads.antt =====
-- HeadsHandler of core/node_ws.go: the headers that it keeps.
use mathlib.Core.List.{filter_map}
use dex_executorgo.Prelude.{
  ◌≡◌, refl, ap, ◌∙◌, inl, inr, Option, none, some, List, [], ◌∷◌, length, drop, if◌then◌else◌,
  arith, Option-cases,
}
use dex_executorgo.Go.Text.{Text, lit, text_eq, contains}
use dex_executorgo.Types.{HeadRsp}
use dex_executorgo.Window.{push_window, push_all}
use dex_executorgo.Window.Bounds.{dropped, push_all_lem}
use dex_executorgo.NodeClient.{NodeClient, heads_handler}

module _ (unmarshal : Text → Option HeadRsp) where
  -- The handler over a sequence of messages.
  abbrev pub handle_all : NodeClient → List Text → NodeClient
  handle_all n [] = n
  handle_all n (d ∷ ds) = handle_all (heads_handler unmarshal n d).0 ds

  abbrev with_method : Option HeadRsp → Option HeadRsp
  with_method none = none
  with_method (some rsp) = if text_eq rsp.method [] then none else some rsp

  -- The header in a message that is no "invalid request", can be decoded and has a method.
  abbrev pub head_in : Text → Option HeadRsp
  head_in d = if contains d (lit "invalid request") then none else with_method (unmarshal d)

  abbrev pushed : List HeadRsp → Option HeadRsp → List HeadRsp
  pushed l none = l
  pushed l (some rsp) = push_window l rsp

  heads_handler-pushed :
      (n : NodeClient) (d : Text)
      → (heads_handler unmarshal n d).0.header_ws_list ≡ pushed n.header_ws_list (head_in d)
  unfolding heads_handler
  heads_handler-pushed n d = ground arith

  handle_all-push_all :
      (n : NodeClient) (ds : List Text)
      → (handle_all n ds).header_ws_list ≡ push_all n.header_ws_list (filter_map head_in ds)
  handle_all-push_all n [] = unfold push_all filter_map in refl
  handle_all-push_all n (d ∷ ds) =
      handle_all-push_all (heads_handler unmarshal n d).0 ds
      ∙ ap (λ l. push_all l (filter_map head_in ds)) (heads_handler-pushed n d)
      ∙ unfold push_all filter_map in
        elim (Option-cases (head_in d)) [ inl e ↦ rw e refl | inr (rsp, e) ↦ rw e refl ]

  -- From an empty list on, the headers that the handler keeps are those in its messages, in order,
  -- all but the oldest 100 * ((n - 102) / 100) of n.
  pub handle_all-newest :
      (n : NodeClient) (ds : List Text)
      → n.header_ws_list ≡ []
      → (handle_all n ds).header_ws_list
        ≡ drop (dropped (length (filter_map head_in ds))) (filter_map head_in ds)
  handle_all-newest n ds fresh =
      handle_all-push_all n ds
      ∙ ap (λ l. push_all l (filter_map head_in ds)) fresh
      ∙ (push_all_lem (filter_map head_in ds)).0
