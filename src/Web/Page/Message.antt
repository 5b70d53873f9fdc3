-- ===== src/Web/Page/Message.antt =====
-- The message box of the pages offers nothing to click.
use dns_filter.Prelude.{◌≡◌, ap, ◌∙◌, List, [], ◌++◌, Text, is_empty, Bool-cases, inl, inr}
use dns_filter.Web.Html.{Node, nodes, clicks, all_clicks, boxes, all_boxes}
use dns_filter.Web.Html.Clicks.{all_clicks-append, all_boxes-append}
use dns_filter.Web.Page.{message_box}

pub message_box-clicks : {E : Type 0} (m : Text) → all_clicks (nodes (message_box {E = E} m)) ≡ []
unfolding clicks
message_box-clicks m = elim (Bool-cases (is_empty m)) [ inl e ↦ rw e | inr e ↦ rw e ]

pub message_box-boxes : {E : Type 0} (m : Text) → all_boxes (nodes (message_box {E = E} m)) ≡ []
unfolding boxes
message_box-boxes m = elim (Bool-cases (is_empty m)) [ inl e ↦ rw e | inr e ↦ rw e ]

pub after_message-clicks :
    {E : Type 0} (m : Text) (ns : List (Node E))
    → all_clicks (nodes (message_box m ++ ns)) ≡ all_clicks (nodes ns)
after_message-clicks {E} m ns =
    all_clicks-append (message_box m) ns
    ∙ ap (λ l. l ++ all_clicks (nodes ns)) (message_box-clicks {E = E} m)

pub after_message-boxes :
    {E : Type 0} (m : Text) (ns : List (Node E))
    → all_boxes (nodes (message_box m ++ ns)) ≡ all_boxes (nodes ns)
after_message-boxes {E} m ns =
    all_boxes-append (message_box m) ns
    ∙ ap (λ l. l ++ all_boxes (nodes ns)) (message_box-boxes {E = E} m)
