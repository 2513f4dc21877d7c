-- ===== src/Schema/Enums.antt =====
-- The enums of prisma/schema.prisma. Each has a rank, so that its values are compared by number.
use udv_shop_api.Prelude.{ℕ, Bool, ◌==◌, List, any}

pub data OrderStatus : Type 0 where
  pending_payment paid delivery_arranged delivered cancelled refunded : OrderStatus

pub data PaymentProvider : Type 0 where
  stripe woovi : PaymentProvider

pub data PaymentStatus : Type 0 where
  pending succeeded failed expired cancelled refunded refund_pending : PaymentStatus

pub data WebhookEventStatus : Type 0 where
  received processed failed : WebhookEventStatus

pub data OutboxStatus : Type 0 where
  pending processing processed failed : OutboxStatus

pub data DonationType : Type 0 where
  one_time monthly : DonationType

pub data DonationStatus : Type 0 where
  pending_payment paid failed cancelled refunded : DonationStatus

pub data CampaignStatus : Type 0 where
  draft active paused finished : CampaignStatus

pub data CampaignAcceptedTypes : Type 0 where
  one_time monthly both : CampaignAcceptedTypes

pub data RaffleStatus : Type 0 where
  open_entries drawn cancelled : RaffleStatus

pub data InterestStatus : Type 0 where
  is_open notified converted cancelled : InterestStatus

pub data ProductAvailability : Type 0 where
  in_stock on_demand : ProductAvailability

pub data PayoutKind : Type 0 where
  fixed_cents percent_bps : PayoutKind

pub data StoreStatus : Type 0 where
  pending active suspended : StoreStatus

pub data StoreSuspensionReason : Type 0 where
  billing platform : StoreSuspensionReason

pub data StoreSubscriptionStatus : Type 0 where
  incomplete trialing active past_due canceled : StoreSubscriptionStatus

pub data WooviPixKeyStatus : Type 0 where
  legacy pending verified : WooviPixKeyStatus

pub data WooviPixKeyVerificationStatus : Type 0 where
  pending verified rejected expired : WooviPixKeyVerificationStatus

abbrev order_rank : OrderStatus → ℕ
order_rank OrderStatus.pending_payment = 0
order_rank OrderStatus.paid = 1
order_rank OrderStatus.delivery_arranged = 2
order_rank OrderStatus.delivered = 3
order_rank OrderStatus.cancelled = 4
order_rank OrderStatus.refunded = 5

abbrev payment_rank : PaymentStatus → ℕ
payment_rank PaymentStatus.pending = 0
payment_rank PaymentStatus.succeeded = 1
payment_rank PaymentStatus.failed = 2
payment_rank PaymentStatus.expired = 3
payment_rank PaymentStatus.cancelled = 4
payment_rank PaymentStatus.refunded = 5
payment_rank PaymentStatus.refund_pending = 6

abbrev donation_rank : DonationStatus → ℕ
donation_rank DonationStatus.pending_payment = 0
donation_rank DonationStatus.paid = 1
donation_rank DonationStatus.failed = 2
donation_rank DonationStatus.cancelled = 3
donation_rank DonationStatus.refunded = 4

abbrev outbox_rank : OutboxStatus → ℕ
outbox_rank OutboxStatus.pending = 0
outbox_rank OutboxStatus.processing = 1
outbox_rank OutboxStatus.processed = 2
outbox_rank OutboxStatus.failed = 3

abbrev campaign_rank : CampaignStatus → ℕ
campaign_rank CampaignStatus.draft = 0
campaign_rank CampaignStatus.active = 1
campaign_rank CampaignStatus.paused = 2
campaign_rank CampaignStatus.finished = 3

abbrev raffle_rank : RaffleStatus → ℕ
raffle_rank RaffleStatus.open_entries = 0
raffle_rank RaffleStatus.drawn = 1
raffle_rank RaffleStatus.cancelled = 2

abbrev interest_rank : InterestStatus → ℕ
interest_rank InterestStatus.is_open = 0
interest_rank InterestStatus.notified = 1
interest_rank InterestStatus.converted = 2
interest_rank InterestStatus.cancelled = 3

-- `status: s` and `status: { in: [...] }` of a `where`
abbrev pub order_in : List OrderStatus → OrderStatus → Bool
order_in among s = any (λ t. order_rank s == order_rank t) among

abbrev pub payment_in : List PaymentStatus → PaymentStatus → Bool
payment_in among s = any (λ t. payment_rank s == payment_rank t) among

abbrev pub donation_in : List DonationStatus → DonationStatus → Bool
donation_in among s = any (λ t. donation_rank s == donation_rank t) among

abbrev pub outbox_is : OutboxStatus → OutboxStatus → Bool
outbox_is t s = outbox_rank s == outbox_rank t

abbrev pub raffle_is : RaffleStatus → RaffleStatus → Bool
raffle_is t s = raffle_rank s == raffle_rank t

abbrev pub interest_in : List InterestStatus → InterestStatus → Bool
interest_in among s = any (λ t. interest_rank s == interest_rank t) among

abbrev pub campaign_in : List CampaignStatus → CampaignStatus → Bool
campaign_in among s = any (λ t. campaign_rank s == campaign_rank t) among
