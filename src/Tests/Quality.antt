-- ===== src/Tests/Quality.antt =====
-- The properties of the two data-quality gates, at concrete inputs.
use Prim.Native.String.{◌++◌ as append}
use ai_native_hedge_fund_ch.Prelude.{
  ◌≡◌, ◌⊎◌, refl, true, false, err, List, some, none, [], ◌∷◌, ok, map,
}
use ai_native_hedge_fund_ch.Prelude.Int.{pos, ◌*ℤ◌}
use ai_native_hedge_fund_ch.PyFloat.{Milli, milli}
use ai_native_hedge_fund_ch.Schemas.Enums.{PositionSide, PortfolioProposalStatus, pass}
use ai_native_hedge_fund_ch.Schemas.Portfolio.{PortfolioProposal, PaperTrade, validate_paper_trade}
use ai_native_hedge_fund_ch.PaperExecution.{
  PaperTradeProposalRequest, PaperTradeProposalResponse, Services, build_trades, trade_of,
  is_blocked, quantity_of, notional_of, with_realism, propose_trades,
}
use ai_native_hedge_fund_ch.DataQuality.{
  ValidationGateResult, ProvenanceRecord, provenance_failures,
}
use ai_native_hedge_fund_ch.DataQuality.PaperTrades.{GateContext, validate_paper_trade_request}
use ai_native_hedge_fund_ch.DataQuality.PaperTrades.Verdict.{
  IsDecided, validate_paper_trade_request-IsDecided,
}
use ai_native_hedge_fund_ch.DataQuality.PaperTrades.OwnTrades.{UsesGate, own_trades_returned}
use ai_native_hedge_fund_ch.DataQuality.Proposals.{
  GateSignal, ProposalContext, validate_portfolio_proposal,
}
use ai_native_hedge_fund_ch.DataQuality.Proposals.Admission.{
  IsAdmissible, validate_portfolio_proposal_lem,
}
use ai_native_hedge_fund_ch.Tests.Scenario.{no_response, no_idea, services}
use ai_native_hedge_fund_ch.Tests.Reviewing.{trade}

abbrev context : GateContext Milli
context = record {
  provenance = λ t. record {
    processing_time = some 30;
    transformation_name = some "day7_paper_trade_translation";
    source_reference_ids = [];
    upstream_artifact_ids = t.position_idea_id ∷ [];
  };
  make_canonical_id = λ prefix name target. append prefix (append name target);
}

abbrev approved_proposal : PortfolioProposal Milli
approved_proposal = record no_response.proposal {
  portfolio_proposal_id = "approved";
  position_ideas =
      record no_idea {
        position_idea_id = "first";
        symbol = "ACME";
        side = PositionSide.long;
        proposed_weight_bps = pos 100;
      }
      ∷ record no_idea { position_idea_id = "second"; symbol = "FLAT" }
      ∷ [];
  status = PortfolioProposalStatus.approved;
}

-- The trade is one of another proposal.
validate_paper_trade_request-IsDecided_example :
    (r : ValidationGateResult) × (validate_paper_trade_request context approved_proposal
        (some (trade ∷ []))
        false
      ≡ ok r)
    × IsDecided context approved_proposal (some (trade ∷ [])) r.validation_gate
validate_paper_trade_request-IsDecided_example =
    validate_paper_trade_request-IsDecided context approved_proposal (some (trade ∷ []))

abbrev gated : Services Milli
gated = record services {
  validate_paper_trade_request = λ p trades.
      (validate_paper_trade_request-IsDecided context p trades).0.validation_gate.decision;
}

gated-UsesGate : UsesGate milli gated context
gated-UsesGate p trades =
    let (r, run, decided) = validate_paper_trade_request-IsDecided context p trades in
    (r, run, refl)

abbrev gated_request : PaperTradeProposalRequest Milli
gated_request = record {
  portfolio_proposal = approved_proposal;
  assumed_reference_prices = λ symbol. some (pos 50000);
  requested_by = "desk";
}

abbrev only_trade : PaperTrade Milli
only_trade = trade_of milli gated gated_request 30 (record no_idea {
  position_idea_id = "first";
  symbol = "ACME";
  side = PositionSide.long;
  proposed_weight_bps = pos 100;
})

one_built :
    build_trades milli gated gated_request 30 approved_proposal.position_ideas
    ≡ ok (only_trade ∷ [])
unfolding build_trades trade_of quantity_of notional_of validate_paper_trade ◌*ℤ◌ milli
one_built = refl

own_trades_returned_example :
    (response : PaperTradeProposalResponse Milli) × (propose_trades milli gated gated_request 30
      ≡ ok response)
    × (response.proposed_trades
        ≡ map
            (with_realism milli gated
              (gated.build_paper_realism_context approved_proposal (only_trade ∷ []))
              30)
            (only_trade ∷ []))
    × (response.stop_kind ≡ none)
    × (response.quality_decision ≡ pass)
unfolding provenance_failures is_blocked
own_trades_returned_example =
    own_trades_returned milli gated context gated_request 30 (λ t. refl) gated-UsesGate refl refl
      one_built

abbrev full_provenance : ProvenanceRecord
full_provenance = record {
  processing_time = some 20;
  transformation_name = some "signal_generation";
  source_reference_ids = "filing" ∷ [];
  upstream_artifact_ids = [];
}

abbrev loaded_signals : List GateSignal
loaded_signals =
    record {
      signal_id = "";
      feature_ids = "growth" ∷ "tone" ∷ [];
      lineage_feature_ids = "tone" ∷ "growth" ∷ [];
      component_scores =
          record { signal_score_id = "score"; source_feature_ids = "tone" ∷ [] } ∷ [];
      provenance = full_provenance;
    }
    ∷ []

abbrev proposal_context : ProposalContext Milli
proposal_context = record {
  idea_provenance = λ idea. full_provenance;
  proposal_provenance = λ proposal. full_provenance;
  make_canonical_id = λ prefix name target. append prefix (append name target);
}

validate_portfolio_proposal_lem_example :
    (IsAdmissible proposal_context loaded_signals approved_proposal.position_ideas approved_proposal
      × (r : ValidationGateResult) × (validate_portfolio_proposal proposal_context loaded_signals
            approved_proposal.position_ideas approved_proposal true
          ≡ ok r)
      × (r.validation_gate.decision ≡ pass))
    ⊎ ((¬ IsAdmissible proposal_context loaded_signals approved_proposal.position_ideas
          approved_proposal)
        × (validate_portfolio_proposal proposal_context loaded_signals
              approved_proposal.position_ideas approved_proposal true
            ≡ err "the gate blocked the target"))
validate_portfolio_proposal_lem_example =
    validate_portfolio_proposal_lem proposal_context loaded_signals approved_proposal.position_ideas
      approved_proposal
